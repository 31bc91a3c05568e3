-- ===== src/Tracker.antt =====
-- crates/ace-tracker/src/lib.rs: the errors of the tracker client, and the crate's result type. A
-- tracker's message is kept as its bytes, and an I/O error without its cause.
pub mod Codec
use Prim.Native.String.{String}
use outpace.Prelude.{ℕ, List}

pub data TrackerError : Type 0 where
  malformed : String → TrackerError
  transaction_mismatch : TrackerError
  tracker : List ℕ → TrackerError
  io timeout : TrackerError

pub data Result {ℓ} (A : Type ℓ) : Type ℓ where
  ok : A → Result A
  err : TrackerError → Result A
