-- ===== src/Media/Resync/Tests.antt =====
-- Runs of crates/ace-media/src/mpegts.rs's TsResync over packets of one repeated byte.
use outpace.Prelude.{
  ℕ, zero, suc, ◌+◌, ◌≤◌, ◌≡◌, refl, true, List, [], ◌∷◌, ◌++◌, length, replicate, take, drop,
  arith,
}
use outpace.Media
use outpace.Media.Resync
use outpace.Media.Resync.{TsResync, TsResyncOutput}
use outpace.Media.Resync.Report.{Realigned, push_report-Realigned}
use outpace.Media.Resync.Lossless.{IsAligned, push_all, joined, push_all-lossless}
use outpace.Media.Resync.Account.{push_report_accounts}

program : Unit {0}
unfolding Resync.new Resync.note_loss Resync.report_loss Resync.is_pair Resync.scan_forward
    Resync.emit Resync.lose Resync.starts_packet Resync.realign Resync.scan_start Resync.bound_tail
    Resync.push_report Resync.push Media.select
program = tt

abbrev packet : ℕ → List ℕ
packet b = 0x47 ∷ replicate 187 b

-- A locked stream loses three bytes in front of its next packet.
abbrev junk : List ℕ
junk = 1 ∷ 2 ∷ 3 ∷ []

abbrev torn : TsResync
torn = record { buf = packet 7; locked = true; acquired_sync = true }

abbrev torn_report : TsResyncOutput
torn_report = record {
  selected = record { start = 0; end = 188 } ∷ record { start = 191; end = 379 } ∷ [];
  consumed = 379;
  bytes = packet 7 ++ packet 8;
  discarded_bytes = 3;
  boundaries = record { output_offset = 188; discarded_bytes = 3 } ∷ [];
}

torn_stream :
    Resync.push_report torn (junk ++ (packet 8 ++ packet 9))
    ≡ (record { buf = packet 9; locked = true; acquired_sync = true }, torn_report)
unfolding program
torn_stream = refl

-- 400 bytes with no packet among them leave 375.
flood : length (Resync.push Resync.new (replicate 400 1)).0.buf ≡ 375
unfolding program
flood = refl

push_report-Realigned_example :
    Realigned
      (torn.buf ++ (junk ++ (packet 8 ++ packet 9)))
      (Resync.push_report torn (junk ++ (packet 8 ++ packet 9))).0
      (Resync.push_report torn (junk ++ (packet 8 ++ packet 9))).1
push_report-Realigned_example = push_report-Realigned torn (junk ++ (packet 8 ++ packet 9))

push_report_accounts_example :
    let (r', o) = Resync.push_report torn junk in
    (length o.bytes + o.discarded_bytes + length r'.buf ≡ length torn.buf + length junk)
    × (r'.acquired_sync ≡ true)
push_report_accounts_example = push_report_accounts torn junk refl

-- Two packets, cut behind ten bytes.
abbrev two_pushes : List (List ℕ)
two_pushes = take 10 (packet 5) ∷ (drop 10 (packet 5) ++ packet 6) ∷ []

two_pushes-IsAligned : IsAligned (joined two_pushes)
two_pushes-IsAligned zero h = refl
two_pushes-IsAligned (suc zero) h = refl
two_pushes-IsAligned (suc (suc k)) h = absurd (omega arith)

push_all-lossless_example :
    ((push_all Resync.new two_pushes).1 ++ (push_all Resync.new two_pushes).0.buf
      ≡ Resync.new.buf ++ joined two_pushes)
    × (length (push_all Resync.new two_pushes).0.buf ≤ 375)
unfolding Resync.new
push_all-lossless_example =
    push_all-lossless Resync.new two_pushes two_pushes-IsAligned (omega arith)
