-- ===== src/Media/Sync/Tests.antt =====
-- Runs of crates/ace-media/src/mpegts.rs's alignment search.
use outpace.Prelude.{ℕ, ◌≡◌, refl, true, some, List, ◌∷◌, ◌++◌, replicate, drop}
use outpace.Media.Sync
use outpace.Media.Sync.Offset.{Found, find_sync_offset-Found}

-- Two bytes in front of two packets.
abbrev shifted : List ℕ
shifted = 1 ∷ 2 ∷ 0x47 ∷ (replicate 187 0 ++ (0x47 ∷ replicate 187 0))

offset_two : Sync.find_sync_offset shifted ≡ some 2
unfolding Sync.find_sync_offset Sync.try_offsets Sync.probe
offset_two = refl

find_sync_offset-Found_example : Found shifted 0 (Sync.find_sync_offset shifted)
find_sync_offset-Found_example = find_sync_offset-Found shifted

aligned_behind : Sync.is_aligned (drop 2 shifted) ≡ true
unfolding Sync.is_aligned Sync.all_synced Sync.packet_count
aligned_behind = refl
