-- ===== src/Media/Title.antt =====
-- crates/ace-media/src/mpegts.rs: the title that a client is shown. A `char` is its code point, and
-- a text the list of its characters; what std knows of them is a parameter.
pub mod Bounds
mod Tests
use outpace.Prelude.{
  ℕ, zero, suc, ◌-◌, min, ◌&&◌, ◌==◌, not, Bool, true, false, Option, none, some, List, [], ◌∷◌,
  ◌++◌, is_empty, length, take, leb, if◌then◌else◌,
}
use outpace.Media.Sdt.{max_service_name_bytes}

-- `char::is_whitespace`, `char::is_control` and `char::encode_utf8` of std.
pub record Unicode : Type 0 where
  pub is_whitespace : ℕ → Bool
  pub is_control : ℕ → Bool
  pub encode : ℕ → List ℕ

module _ (u : Unicode) where
  -- `str::as_bytes`.
  unfoldable pub as_bytes : List ℕ → List ℕ
  as_bytes [] = []
  as_bytes (c ∷ cs) = u.encode c ++ as_bytes cs

  unfoldable pub trim_start : List ℕ → List ℕ
  trim_start [] = []
  trim_start (c ∷ cs) = let rest = trim_start cs in if u.is_whitespace c then rest else c ∷ cs

  unfoldable pub trim_end : List ℕ → List ℕ
  trim_end [] = []
  trim_end (c ∷ cs) =
      let rest = trim_end cs in if is_empty rest && u.is_whitespace c then [] else c ∷ rest

  -- `str::trim`.
  unfoldable pub trim : List ℕ → List ℕ
  trim cs = trim_end (trim_start cs)

  unfoldable pub strip_control : List ℕ → List ℕ
  strip_control [] = []
  strip_control (c ∷ cs) = let rest = strip_control cs in if u.is_control c then rest else c ∷ rest

  -- `str::is_char_boundary` at `n` bytes.
  unfoldable pub is_char_boundary : List ℕ → (n : ℕ) → Bool
  is_char_boundary [] n = n == 0
  is_char_boundary (c ∷ cs) n =
      let rest = is_char_boundary cs (n - length (u.encode c)) in
      if n == 0 then true else if leb (length (u.encode c)) n then rest else false

  -- The greatest boundary up to `end`.
  unfoldable pub back_to_boundary : List ℕ → (end : ℕ) → ℕ
  back_to_boundary cs zero = zero
  back_to_boundary cs (suc n) =
      let rest = back_to_boundary cs n in if is_char_boundary cs (suc n) then suc n else rest

  unfoldable pub sanitize_service_name : List ℕ → Option (List ℕ)
  sanitize_service_name raw =
      let stripped = trim (strip_control (trim raw)) in
      let bytes = as_bytes stripped in
      if is_empty stripped
      then none
      else some (take (back_to_boundary stripped (min (length bytes) max_service_name_bytes)) bytes)

  -- A title for a state or a gate, where there is one.
  unfoldable pub sanitized : Option (List ℕ) → Option (List ℕ)
  sanitized none = none
  sanitized (some raw) = sanitize_service_name raw
