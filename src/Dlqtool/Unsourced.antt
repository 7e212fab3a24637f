-- ===== src/Dlqtool/Unsourced.antt =====
-- A run over records without the tool's header for their topics.
use public_pg2mongo_cd_c.Base.{
  ℕ, zero, suc, ◌+◌, ◌*◌, String, Bool, true, false, Option, none, some, ◌≡◌, refl, ◌∙◌, List, [],
  ◌∷◌, ◌==◌, pos_part, All, All-append,
}
use public_pg2mongo_cd_c.Kgo.{KgoRecord}
use public_pg2mongo_cd_c.Dlqtool.{Poll, Flags}
use public_pg2mongo_cd_c.Dlqtool.Scan.{published, send_all, replays, has_source, read}
use public_pg2mongo_cd_c.Dlqtool.Offsets.{Offsets, offsets, total_lag}
use public_pg2mongo_cd_c.Dlqtool.Main.{Exit, is_zero, main, main_reports}

module _ {S : Type 0} {E : Type 0} (produce_sync : KgoRecord → S → S × Option E) where
  send_all-unsourced :
      (rs : List KgoRecord) (s : S)
      → All (λ r. has_source r ≡ false) rs
      → send_all produce_sync (replays rs) s ≡ s
  send_all-unsourced [] s _ = refl
  send_all-unsourced (r ∷ rs) s (h, hs) = rw h (send_all-unsourced rs s hs)

  published-unsourced :
      (replay : Bool) (rs : List KgoRecord) (s : S)
      → All (λ r. has_source r ≡ false) rs
      → published produce_sync replay rs s ≡ s
  published-unsourced true rs s h = send_all-unsourced rs s h
  published-unsourced false rs s h = refl

  read-unsourced :
      (polls : ℕ → Poll) (n i : ℕ)
      → ((j : ℕ) → All (λ r. has_source r ≡ false) (polls j).records)
      → All (λ r. has_source r ≡ false) (read polls n i)
  read-unsourced polls zero i h = tt
  read-unsourced polls (suc n) i h =
      All-append (λ r. has_source r ≡ false) (polls i).records (read polls n (i + 1)) (h i)
        (read-unsourced polls n (i + 1) h)

  -- A run over a topic that exists, with a lag other than 0 and clients that open, none of whose
  -- records names its topic in the header __dlq_source_topic, ends and produces nothing, also when
  -- it replays.
  main_unsourced :
      (topic : String) (flags : Flags) (polls : ℕ → Poll) (a : Offsets) (b : Offsets) (s : S)
      → (topic == "") ≡ false
      → is_zero produce_sync (total_lag a b) ≡ false
      → ((j : ℕ) → All (λ r. has_source r ≡ false) (polls j).records)
      → (x : Exit produce_sync) × (main produce_sync
            (2 * pos_part (total_lag a b) + 3)
            topic
            flags
            polls
            (offsets a b true)
            none
            none
            s
          ≡ some x)
        × (x.tally.producer ≡ s)
  main_unsourced topic flags polls a b s named full h =
      let (x, r, d, _, _, _) = main_reports produce_sync topic flags polls a b s named full in
      (
        x,
        r,
        d.sent
            ∙ published-unsourced flags.replay (read polls d.n 0) s (read-unsourced polls d.n 0 h),
      )
