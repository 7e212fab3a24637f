-- ===== src/Dlqtool/Accounts.antt =====
-- The dead-letter tool's counts: every record is counted once, and replayed or counted as failed.
use public_pg2mongo_cd_c.Base.{
  ℕ, ◌+◌, ◌≤◌, String, Bool, true, false, Option, none, some, ◌≡◌, ◌∙◌, arith,
}
use public_pg2mongo_cd_c.Base.{
  List, [], ◌∷◌, ◌==◌, if◌then◌else◌, Dict, lookup, insert, NodupKeys, insert-NodupKeys, Bool-cases,
  inl, inr,
}
use public_pg2mongo_cd_c.Kgo.{KgoRecord}
use public_pg2mongo_cd_c.Dlqtool.{
  truncate, header_error_reason, header_string, header_source_topic, count_of, bump, out_record,
  Tally, counted, after_produce, replay_record, on_record, each_record,
}

abbrev pub sum_counts : Dict ℕ → ℕ
sum_counts [] = 0
sum_counts ((k, n) ∷ m) = n + sum_counts m

sum_counts-bump : (k : String) (m : Dict ℕ) → sum_counts (bump k m) ≡ sum_counts m + 1
unfolding bump insert lookup
sum_counts-bump k [] = omega arith
sum_counts-bump k ((j, n) ∷ m) = ground (arith, sum_counts-bump k m)

module _ {S : Type 0} {E : Type 0} (produce_sync : KgoRecord → S → S × Option E) where
  -- Each record is counted under one reason and under at most one topic, and a replay has either
  -- published it or counted it as failed.
  pub record IsAccounted (replay : Bool) (t : Tally produce_sync) : Type 0 where
    pub unique : NodupKeys t.reasons × NodupKeys t.by_source_topic
    pub by_reason : sum_counts t.reasons ≡ t.processed
    pub by_topic : sum_counts t.by_source_topic ≤ t.processed
    pub outcome : t.replayed + t.replay_failed ≡ (if replay then t.processed else 0)

  -- The same after the count of a record, before its replay.
  record IsPending (t : Tally produce_sync) : Type 0 where
    unique : NodupKeys t.reasons × NodupKeys t.by_source_topic
    by_reason : sum_counts t.reasons ≡ t.processed
    by_topic : sum_counts t.by_source_topic ≤ t.processed
    outcome : t.replayed + t.replay_failed + 1 ≡ t.processed

  counted-by_reason :
      (r : KgoRecord) (t : Tally produce_sync)
      → sum_counts t.reasons ≡ t.processed
      → sum_counts (counted produce_sync r t).reasons ≡ t.processed + 1
  counted-by_reason r t h =
      sum_counts-bump (truncate (header_string r header_error_reason) 80) t.reasons
      ∙ omega (arith, h)

  counted-by_topic :
      (r : KgoRecord) (t : Tally produce_sync)
      → sum_counts t.by_source_topic ≤ t.processed
      → sum_counts (counted produce_sync r t).by_source_topic ≤ t.processed + 1
  counted-by_topic r t h =
      ground (arith, sum_counts-bump (header_string r header_source_topic) t.by_source_topic)

  counted_unique :
      (r : KgoRecord) (t : Tally produce_sync)
      → NodupKeys t.reasons × NodupKeys t.by_source_topic
      → NodupKeys (counted produce_sync r t).reasons
        × NodupKeys (counted produce_sync r t).by_source_topic
  unfolding bump
  counted_unique r t (u, v) =
      let k = truncate (header_string r header_error_reason) 80 in
      let src = header_string r header_source_topic in
      (
        insert-NodupKeys k (count_of t.reasons k + 1) t.reasons u,
        elim (Bool-cases (src == "")) [
          | inl e ↦ rw e v
          | inr e ↦
              rw e (insert-NodupKeys src (count_of t.by_source_topic src + 1) t.by_source_topic v)
        ],
      )

  after_produce-IsAccounted :
      (t : Tally produce_sync) (c : S × Option E)
      → IsPending t
      → IsAccounted true (after_produce produce_sync t c)
  after_produce-IsAccounted t (s, some e) h = record {
    unique = h.unique;
    by_reason = h.by_reason;
    by_topic = h.by_topic;
    outcome = omega (arith, h.outcome);
  }
  after_produce-IsAccounted t (s, none) h = record {
    unique = h.unique;
    by_reason = h.by_reason;
    by_topic = h.by_topic;
    outcome = omega (arith, h.outcome);
  }

  replay_record-IsAccounted :
      (r : KgoRecord) (t : Tally produce_sync)
      → IsPending t
      → IsAccounted true (replay_record produce_sync r t)
  replay_record-IsAccounted r t h = elim (Bool-cases (header_string r header_source_topic == "")) [
    | inl e ↦ rw e (record {
      unique = h.unique;
      by_reason = h.by_reason;
      by_topic = h.by_topic;
      outcome = omega (arith, h.outcome);
    })
    | inr e ↦ rw e (after_produce-IsAccounted t (produce_sync (out_record r) t.producer) h)
  ]

  on_record-IsAccounted :
      (replay : Bool) (r : KgoRecord) (t : Tally produce_sync)
      → IsAccounted replay t
      → IsAccounted replay (on_record produce_sync replay r t)
  unfolding on_record
  on_record-IsAccounted true r t h =
      replay_record-IsAccounted r (counted produce_sync r t) (record {
        unique = counted_unique r t h.unique;
        by_reason = counted-by_reason r t h.by_reason;
        by_topic = counted-by_topic r t h.by_topic;
        outcome = omega (arith, h.outcome);
      })
  on_record-IsAccounted false r t h = record {
    unique = counted_unique r t h.unique;
    by_reason = counted-by_reason r t h.by_reason;
    by_topic = counted-by_topic r t h.by_topic;
    outcome = h.outcome;
  }

  pub each_record-IsAccounted :
      (replay : Bool) (rs : List KgoRecord) (t : Tally produce_sync)
      → IsAccounted replay t
      → IsAccounted replay (each_record produce_sync replay rs t)
  unfolding each_record
  each_record-IsAccounted replay [] t h = h
  each_record-IsAccounted replay (r ∷ rs) t h =
      each_record-IsAccounted replay rs (on_record produce_sync replay r t)
        (on_record-IsAccounted replay r t h)
