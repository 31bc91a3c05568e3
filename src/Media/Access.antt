-- ===== src/Media/Access.antt =====
-- crates/ace-media/src/mpegts.rs: VideoAccessPointState, the tables that a stream has shown and the
-- packets that a decoder can start at. A title is the bytes of its sanitized text.
use outpace.Prelude.{
  ℕ, ◌+◌, ◌*◌, ◌==◌, ◌&&◌, ◌||◌, not, Bool, true, false, Option, none, some, is_some, List, [],
  ◌++◌, length, if◌then◌else◌,
}
use outpace.Media.{ts_sync, ts_packet_len, byte_at, ◌>>=◌}
use outpace.Media.Packet
use outpace.Media.Psi
use outpace.Media.Psi.{VideoCodec}
use outpace.Media.Pes
use outpace.Media.Sdt
use outpace.Media.Title
use outpace.Media.Title.{Unicode}

pub record VideoAccessPointState : Type 0 where
  pub allow_mpeg2 : Bool
  pub preserve_transport_identity : Bool
  pub pmt_pid : Option ℕ
  pub video_pid : Option ℕ
  pub video_codec : Option VideoCodec
  pub cached_pat : Option (List ℕ)
  pub cached_pmt : Option (List ℕ)
  pub service_name : Option (List ℕ)
  pub program_number : Option ℕ

unfoldable pub untaught : (allow_mpeg2 preserve : Bool) → Option (List ℕ) → VideoAccessPointState
untaught allow_mpeg2 preserve name = record {
  allow_mpeg2 = allow_mpeg2;
  preserve_transport_identity = preserve;
  pmt_pid = none;
  video_pid = none;
  video_codec = none;
  cached_pat = none;
  cached_pmt = none;
  service_name = name;
  program_number = none;
}

unfoldable pub new : VideoAccessPointState
new = untaught false false none

unfoldable pub with_service_name : Unicode → Option (List ℕ) → VideoAccessPointState
with_service_name u raw = untaught false false (Title.sanitized u raw)

unfoldable pub enable_mpeg2 : VideoAccessPointState → VideoAccessPointState
enable_mpeg2 a = record a { allow_mpeg2 = true }

unfoldable pub preserve_identity : VideoAccessPointState → VideoAccessPointState
preserve_identity a = record a { preserve_transport_identity = true }

unfoldable pub has_service_name : VideoAccessPointState → Bool
has_service_name a = is_some a.service_name

unfoldable pub reset : VideoAccessPointState → VideoAccessPointState
reset a = untaught a.allow_mpeg2 a.preserve_transport_identity a.service_name

-- `Some(pid) == selected`.
unfoldable pub is_pid : Option ℕ → ℕ → Bool
is_pid none pid = false
is_pid (some selected) pid = selected == pid

unfoldable pub same_option : Option ℕ → Option ℕ → Bool
same_option none none = true
same_option none (some b) = false
same_option (some a) none = false
same_option (some a) (some b) = a == b

unfoldable pub first_of {ℓ κ} : {A : Type ℓ} {B : Type κ} → Option (A × B) → Option A
first_of none = none
first_of (some p) = some p.0

unfoldable pub second_of {ℓ κ} : {A : Type ℓ} {B : Type κ} → Option (A × B) → Option B
second_of none = none
second_of (some p) = some p.1

-- A program table with the mapping that it holds.
unfoldable pub learn_pat : VideoAccessPointState → List ℕ → Option (ℕ × ℕ) → VideoAccessPointState
learn_pat a packet mapping =
    let same =
      same_option a.pmt_pid (second_of mapping)
      && same_option a.program_number (first_of mapping) in
    record {
      allow_mpeg2 = a.allow_mpeg2;
      preserve_transport_identity = a.preserve_transport_identity;
      pmt_pid = second_of mapping;
      video_pid = if same then a.video_pid else none;
      video_codec = if same then a.video_codec else none;
      cached_pat = some packet;
      cached_pmt = if same then a.cached_pmt else none;
      service_name = a.service_name;
      program_number = first_of mapping;
    }

-- A program map with the video stream that it names.
unfoldable pub learn_pmt :
    VideoAccessPointState → List ℕ → Option (ℕ × VideoCodec) → VideoAccessPointState
learn_pmt a packet video = record a {
  cached_pmt = some packet;
  video_pid = first_of video;
  video_codec = second_of video;
}

unfoldable pub learn : VideoAccessPointState → List ℕ → VideoAccessPointState
learn a packet =
    let pid = Packet.ts_pid packet in
    if pid == 0
    then elim (Psi.parse_pat_first_program packet) [
      | none ↦ a
      | some mapping ↦ learn_pat a packet mapping
    ]
    else if is_pid a.pmt_pid pid
    then elim (Psi.parse_pmt_video packet a.program_number a.allow_mpeg2) [
      | none ↦ a
      | some video ↦ learn_pmt a packet video
    ]
    else a

unfoldable pub observe : VideoAccessPointState → List ℕ → VideoAccessPointState × Bool
observe a packet =
    if not (length packet == ts_packet_len) || not (byte_at packet 0 == ts_sync)
    then (a, false)
    else let a' = learn a packet in
      (
        a',
        is_pid a'.video_pid (Packet.ts_pid packet)
            && Pes.is_random_access_point packet a'.video_codec,
      )

-- The transport stream's id in its program table.
unfoldable pub transport_identity : List ℕ → Option ℕ
transport_identity pat = do
  start ← Psi.psi_section_start pat
  identity ← Sdt.get_range pat (start + 3) 2
  some (byte_at identity 0 * 256 + byte_at identity 1)

unfoldable pub sdt_for : VideoAccessPointState → (pat name : List ℕ) (program : ℕ) → Option (List ℕ)
sdt_for a pat name program =
    if a.preserve_transport_identity
    then transport_identity pat
      >>= (λ (identity : ℕ). some (Sdt.build_sdt_with_transport program name identity))
    else some (Sdt.build_sdt program name)

unfoldable pub title_table :
    VideoAccessPointState
    → List ℕ
    → (title : Option (List ℕ)) (program : Option ℕ) → Option (List ℕ)
title_table a pat (some name) (some program) = sdt_for a pat name program
title_table a pat (some name) none = some []
title_table a pat none program = some []

unfoldable pub table_prefix : VideoAccessPointState → Option (List ℕ)
table_prefix a = do
  pat ← a.cached_pat
  pmt ← a.cached_pmt
  sdt ← title_table a pat a.service_name a.program_number
  some (pat ++ (pmt ++ sdt))
