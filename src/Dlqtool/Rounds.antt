-- ===== src/Dlqtool/Rounds.antt =====
-- One round of the dead-letter tool: what it changes, and that it leaves less to do.
use public_pg2mongo_cd_c.Base.{
  ◌||◌, ℕ, ◌+◌, ◌-◌, ◌*◌, ◌<◌, Bool, true, false, Option, ◌≡◌, refl, ◌∙◌, ap, arith,
}
use public_pg2mongo_cd_c.Base.{
  length, leb, eqb, ◌&&◌, if◌then◌else◌, ℤ, pos, pos_part, leb_ℤ, ltb_ℤ, Bool-cases, inl, inr,
}
use public_pg2mongo_cd_c.Kgo.{KgoRecord}
use public_pg2mongo_cd_c.Dlqtool.{Poll, Flags, Tally, each_record, decide, start}
use public_pg2mongo_cd_c.Dlqtool.Accounts.{IsAccounted, each_record-IsAccounted}
use public_pg2mongo_cd_c.Dlqtool.Scan.{each_record-processed, each_record-producer, published}

less :
    (T : ℕ) (p : ℕ) (p' : ℕ) (l : ℕ) (e : ℕ) (e' : ℕ)
    → p' ≡ p + l
    → p' < T
    → e < 2
    → e' < 2
    → e' ≡ (if eqb l 0 then e + 1 else 0)
    → 2 * (T - p') + (2 - e') < 2 * (T - p) + (2 - e)
less T p p' l e e' hp below idle idle' he = elim (Bool-cases (eqb l 0)) [
  | inl h ↦ ground arith
  | inr h ↦ ground arith
]

module _ {S : Type 0} {E : Type 0} (produce_sync : KgoRecord → S → S × Option E) (flags : Flags)
    (target : ℤ) where
  -- The three reasons to stop that a tally shows: the flag -max, the snapshot, and two empty polls.
  abbrev pub is_over : Tally produce_sync → Bool
  is_over t =
      (ltb_ℤ (pos 0) flags.max_recs && leb_ℤ flags.max_recs (pos t.processed))
      || leb_ℤ target (pos t.processed)
      || leb 2 t.empty_polls

  -- What is left to do: the records that are expected, twice, and the empty polls that are allowed.
  abbrev pub to_do : Tally produce_sync → ℕ
  to_do t = 2 * (pos_part target - t.processed) + (2 - t.empty_polls)

  -- `decide` changes the count of empty polls alone.
  decide-same :
      (got : ℕ) (t : Tally produce_sync)
      → (n : ℕ) × ((decide produce_sync flags target got t).0 ≡ record t { empty_polls = n })
  unfolding decide
  decide-same got t = ((decide produce_sync flags target got t).0.empty_polls, ground arith)

  -- Where it goes on, the target is not reached, and the polls were not empty twice.
  decide-more :
      (got : ℕ) (t : Tally produce_sync)
      → (decide produce_sync flags target got t).1 ≡ false
      → (t.processed < pos_part target)
        × ((decide produce_sync flags target got t).0.empty_polls
            ≡ (if eqb got 0 then t.empty_polls + 1 else 0))
        × ((decide produce_sync flags target got t).0.empty_polls < 2)
  unfolding decide
  decide-more got t h = ground arith

  -- The state after the records of a poll, before the count of empty polls.
  abbrev pub one : Poll → Tally produce_sync → Tally produce_sync
  one poll t = each_record produce_sync flags.replay poll.records t

  set_empty-IsAccounted :
      (t : Tally produce_sync) (e : ℕ)
      → IsAccounted produce_sync flags.replay t
      → IsAccounted produce_sync flags.replay (record t { empty_polls = e })
  set_empty-IsAccounted t e h = record {
    unique = h.unique;
    by_reason = h.by_reason;
    by_topic = h.by_topic;
    outcome = h.outcome;
  }

  pub decide-over :
      (got : ℕ) (t : Tally produce_sync)
      → (decide produce_sync flags target got t).1 ≡ true
      → is_over (decide produce_sync flags target got t).0 ≡ true
  unfolding decide
  decide-over got t h = ground arith

  pub start-IsAccounted : (s : S) → IsAccounted produce_sync flags.replay (start produce_sync s)
  start-IsAccounted s = elim (Bool-cases flags.replay) [
    | inl e ↦ record {
      unique = (tt, tt);
      by_reason = refl;
      by_topic = omega arith;
      outcome = rw e refl;
    }
    | inr e ↦ record {
      unique = (tt, tt);
      by_reason = refl;
      by_topic = omega arith;
      outcome = rw e refl;
    }
  ]

  -- What one round that is not cut short does.
  after_one :
      (poll : Poll) (t : Tally produce_sync)
      → IsAccounted produce_sync flags.replay t
      → (e : ℕ) → IsAccounted produce_sync flags.replay (record (one poll t) { empty_polls = e })
  after_one poll t h e =
      set_empty-IsAccounted (one poll t) e
        (each_record-IsAccounted produce_sync flags.replay poll.records t h)

  abbrev pub decided : Poll → Tally produce_sync → Tally produce_sync × Bool
  decided poll t = decide produce_sync flags target (length poll.records) (one poll t)

  pub decided-same :
      (poll : Poll) (t : Tally produce_sync)
      → IsAccounted produce_sync flags.replay t
      → IsAccounted produce_sync flags.replay (decided poll t).0
        × ((decided poll t).0.processed ≡ t.processed + length poll.records)
        × ((decided poll t).0.producer
            ≡ published produce_sync flags.replay poll.records t.producer)
  decided-same poll t h =
      let (e, same) = decide-same (length poll.records) (one poll t) in
      rw same (
        after_one poll t h e,
        (each_record-processed produce_sync flags.replay poll.records t).0,
        each_record-producer produce_sync flags.replay poll.records t,
      )

  -- A round that goes on leaves less to do.
  pub decided-less :
      (poll : Poll) (t : Tally produce_sync)
      → t.empty_polls < 2
      → (decided poll t).1 ≡ false
      → ((decided poll t).0.processed ≡ t.processed + length poll.records)
      → ((decided poll t).0.empty_polls < 2) × (to_do (decided poll t).0 < to_do t)
  decided-less poll t idle h p =
      let (below, e, idle') = decide-more (length poll.records) (one poll t) h in
      let (q, f) = each_record-processed produce_sync flags.replay poll.records t in
      (
        idle',
        less (pos_part target) t.processed (decided poll t).0.processed (length poll.records)
            t.empty_polls (decided poll t).0.empty_polls p (omega (arith, below, p, q)) idle idle'
            (e ∙ ap (λ x. if eqb (length poll.records) 0 then x + 1 else 0) f),
      )
