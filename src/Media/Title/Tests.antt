-- ===== src/Media/Title/Tests.antt =====
-- Runs of crates/ace-media/src/mpegts.rs's title sanitizing, on characters of one byte.
use outpace.Prelude.{ℕ, ◌≤◌, ◌≡◌, ◌==◌, refl, some, List, [], ◌∷◌, length, take, ltb}
use outpace.Media.Title
use outpace.Media.Title.{Unicode}
use outpace.Media.Title.Bounds.{sanitize_service_name-bounds}

abbrev ascii : Unicode
ascii = record { is_whitespace = λ c. c == 32; is_control = λ c. ltb c 32; encode = λ c. c ∷ [] }

-- A blank, a line feed, "TV" and a blank.
abbrev raw : List ℕ
raw = 32 ∷ 10 ∷ 84 ∷ 86 ∷ 32 ∷ []

program : Unit {0}
unfolding Title.as_bytes Title.trim_start Title.trim_end Title.trim Title.strip_control
    Title.is_char_boundary Title.back_to_boundary Title.sanitize_service_name
program = tt

cleaned : Title.sanitize_service_name ascii raw ≡ some (84 ∷ 86 ∷ [])
unfolding program
cleaned = refl

abbrev tv : List ℕ
tv = 84 ∷ 86 ∷ []

sanitize_service_name-bounds_example :
    (length tv ≤ 151)
    × ((k : ℕ) × (tv
          ≡ Title.as_bytes ascii
              (take k (Title.trim ascii (Title.strip_control ascii (Title.trim ascii raw))))))
sanitize_service_name-bounds_example = sanitize_service_name-bounds ascii raw tv cleaned
