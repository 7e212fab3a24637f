-- ===== src/Dlqtool/Limits.antt =====
-- What the flag -max of the dead-letter tool limits.
use public_pg2mongo_cd_c.Base.{ℕ, suc, true, false, Option, some, ◌≡◌, refl, arith}
use public_pg2mongo_cd_c.Base.{length, ℤ, pos, ◌<ℤ◌, ◌≤ℤ◌}
use public_pg2mongo_cd_c.Kgo.{KgoRecord}
use public_pg2mongo_cd_c.Dlqtool.{Poll, Flags, Tally, each_record, decide, scan, start}
use public_pg2mongo_cd_c.Dlqtool.Scan.{each_record-processed, each_record-producer, published}

module _ {S : Type 0} {E : Type 0} (produce_sync : KgoRecord → S → S × Option E) (flags : Flags)
    (target : ℤ) where
  decide-max :
      (got : ℕ) (t : Tally produce_sync)
      → pos 0 <ℤ flags.max_recs
      → flags.max_recs ≤ℤ pos t.processed
      → decide produce_sync flags target got t ≡ (t, true)
  unfolding decide
  decide-max got t h k = ground arith

  -- If the first poll has at least as many records as a positive -max allows, the scan counts, and
  -- in a replay produces, all of them.
  scan_past_max :
      (fuel : ℕ) (polls : ℕ → Poll) (s : S)
      → (polls 0).ended ≡ false
      → pos 0 <ℤ flags.max_recs
      → flags.max_recs ≤ℤ pos (length (polls 0).records)
      → (t' : Tally produce_sync) × (scan produce_sync
            (suc fuel)
            flags
            target
            polls
            0
            (start produce_sync s)
          ≡ some t')
        × (t'.processed ≡ length (polls 0).records)
        × (t'.producer ≡ published produce_sync flags.replay (polls 0).records s)
  unfolding scan
  scan_past_max fuel polls s go h k =
      let t' = each_record produce_sync flags.replay (polls 0).records (start produce_sync s) in
      let (p, _) =
        each_record-processed produce_sync flags.replay (polls 0).records (start produce_sync s) in
      let d = decide-max (length (polls 0).records) t' h (omega (arith, p, k)) in
      (
        t',
        rw (go, d) refl,
        omega (arith, p),
        each_record-producer produce_sync flags.replay (polls 0).records (start produce_sync s),
      )
