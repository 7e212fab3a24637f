-- ===== src/Kafka/Group.antt =====
-- franz-go's client as the consume loop sees it: it keeps the laws of the loop's interface, and
-- hands over the headers that were produced.
use public_pg2mongo_cd_c.Base.{
  Option, none, some, ◌≡◌, refl, inl, inr, ◌⊎◌, List, [], ◌∷◌, map, All,
}
use public_pg2mongo_cd_c.Kgo.{KgoRecord, Client, GroupLaws}
use public_pg2mongo_cd_c.Consumer.{KafkaRecord, polled}
use public_pg2mongo_cd_c.Consumer.Laws.{ClientLaws, Upto}
use public_pg2mongo_cd_c.Kafka.{
  record_of, after_context, poll, mark_commit, commit_marked, franz_consumer, mark_raw,
}

-- A record that the adapter made, of a record with some property.
abbrev pub FromRaw : (KgoRecord → Type 0) → KafkaRecord → Type 0
FromRaw P x = (k : KgoRecord) × (x ≡ record_of k) × P k

module _ {E : Type 0} (C : Client E) (L : GroupLaws C) where
  abbrev Marked : C.State → KafkaRecord → Type 0
  Marked s = FromRaw (L.Marked s)

  abbrev Committed : C.State → KafkaRecord → Type 0
  Committed s = FromRaw (L.Committed s)

  abbrev Own : KafkaRecord → Type 0
  Own = FromRaw (λ k. Unit)

  Own-all : (rs : List KgoRecord) → All Own (map record_of rs)
  Own-all [] = tt
  Own-all (r ∷ rs) = ((r, refl, tt), Own-all rs)

  result-Own :
      (c : Option E) (es : List E) (rs : List KgoRecord)
      → All Own (polled (after_context C c es rs))
  result-Own (some e) es rs = tt
  result-Own none (e ∷ es) rs = tt
  result-Own none [] rs = Own-all rs

  marked_one :
      (k : KgoRecord) (s : C.State) (x : KafkaRecord)
      → Marked (C.mark_commit_records (k ∷ []) s) x
      → Upto x (record_of k) ⊎ Marked s x
  marked_one k s x (j, e, m) = elim (L.mark_marked (k ∷ []) s j m) [
    | inl (r, inl same, u) ↦ inl (rw (e, ← same) u)
    | inl (r, inr h, u) ↦ absurd h
    | inr old ↦ inr (j, e, old)
  ]

  pub poll-Own : (s : C.State) → All Own (polled (poll C s).1)
  unfolding poll
  poll-Own s = let f = (C.poll_fetches s).1 in result-Own f.ctx_err f.errors f.recs

  pub poll-marked : (s : C.State) (x : KafkaRecord) → Marked (poll C s).0 x → Marked s x
  unfolding poll
  poll-marked s x (k, e, m) = (k, e, L.poll_marked s k m)

  pub poll-Committed : (s : C.State) (x : KafkaRecord) → Committed (poll C s).0 x → Committed s x
  unfolding poll
  poll-Committed s x (k, e, m) = (k, e, L.poll_committed s k m)

  pub mark_commit-marked :
      (r : KafkaRecord) (s : C.State) (x : KafkaRecord)
      → Own r
      → Marked (mark_commit C r s) x
      → Upto x r ⊎ Marked s x
  unfolding mark_commit
  mark_commit-marked r s x (k, e, u) h = rw e (marked_one k s x (rw e at h))

  mark_raw-Committed :
      (o : Option KgoRecord) (s : C.State) (x : KafkaRecord)
      → Committed (mark_raw C o s) x
      → Committed s x
  mark_raw-Committed none s x h = h
  mark_raw-Committed (some k) s x (j, e, h) = (j, e, L.mark_committed (k ∷ []) s j h)

  pub mark_commit-Committed :
      (r : KafkaRecord) (s : C.State) (x : KafkaRecord)
      → Committed (mark_commit C r s) x
      → Committed s x
  unfolding mark_commit
  mark_commit-Committed r s x h = mark_raw-Committed r.raw s x h

  pub commit_marked-marked :
      (s : C.State) (x : KafkaRecord) → Marked (commit_marked C s).0 x → Marked s x
  unfolding commit_marked
  commit_marked-marked s x (k, e, m) = (k, e, L.commit_marked s k m)

  pub commit_marked-Committed :
      (s : C.State) (x : KafkaRecord)
      → Committed (commit_marked C s).0 x
      → Committed s x ⊎ Marked s x
  unfolding commit_marked
  commit_marked-Committed s x (k, e, m) = elim (L.commit_committed s k m) [
    | inl old ↦ inl (k, e, old)
    | inr new ↦ inr (k, e, new)
  ]

  -- The adapter over a client that keeps the group's laws keeps those of the loop's interface.
  abbrev pub franz_laws : ClientLaws (franz_consumer C)
  franz_laws = record {
    Own = Own;
    Marked = Marked;
    Committed = Committed;
    poll_own = poll-Own;
    poll_marked = poll-marked;
    poll_committed = poll-Committed;
    mark_marked = mark_commit-marked;
    mark_committed = mark_commit-Committed;
    commit_marked = commit_marked-marked;
    commit_committed = commit_marked-Committed;
  }
