-- ===== src/Consumer/Delivery.antt =====
-- Commit after side effect: which offsets the consume loop marks and commits.
use public_pg2mongo_cd_c.Base.{ℕ, zero, suc, Option, none, some, ◌≡◌, refl, ◌⊎◌, inl, inr}
use public_pg2mongo_cd_c.Base.{List, [], ◌∷◌, ◌++◌, All, In, All-In-left, length}
use public_pg2mongo_cd_c.Writer.{CdcEvent}
use public_pg2mongo_cd_c.Decoder.{Json}
use public_pg2mongo_cd_c.Consumer.{polled}
use public_pg2mongo_cd_c.Consumer.{
  KafkaRecord, KafkaConsumer, Writer, PollResult, records, poll_error, Batch, events, undecoded,
  decode_all, Pipeline, mark_all, run_once, run_rounds, commit_batch, after_apply, after_decode,
  after_poll, apply_events,
}
use public_pg2mongo_cd_c.Consumer.Laws.{ClientLaws, WriterLaws}
use public_pg2mongo_cd_c.Consumer.Handled.{
  Handled, applied-Handled, Passed, Passed-stays, Passed-grows, apply_events-applied,
}

module _ {E : Type 0} (json : Json) (C : KafkaConsumer E) (W : Writer E) where
  -- The records that `n` rounds poll, on top of those of the list.
  unfoldable pub polls : ℕ → Pipeline json C W → List KafkaRecord → List KafkaRecord
  polls zero p log = log
  polls (suc n) p log = polls n (run_once json C W p).0 (polled (C.poll p.cons).1 ++ log)

module _ {E : Type 0} (json : Json) (C : KafkaConsumer E) (W : Writer E) (CL : ClientLaws C)
    (WL : WriterLaws W) (Old : KafkaRecord → Type 0) where
  -- All that is marked or committed is at or before a record of the list that has been handled, but
  -- for what was committed earlier.
  pub record IsSafe (log : List KafkaRecord) (p : Pipeline json C W) : Type 0 where
    pub marked : (r : KafkaRecord) → CL.Marked p.cons r → Passed json W WL log p.sink r
    pub committed :
        (r : KafkaRecord) → CL.Committed p.cons r → Old r ⊎ Passed json W WL log p.sink r

  mark_all_marked :
      (log : List KafkaRecord) (w : W.State) (rs : List KafkaRecord) (s : C.State)
      → All CL.Own rs
      → All (λ r. In r log) rs
      → All (Handled json W WL w) rs
      → ((x : KafkaRecord) → CL.Marked s x → Passed json W WL log w x)
      → (x : KafkaRecord) → CL.Marked (mark_all json C W rs s) x
      → Passed json W WL log w x
  unfolding mark_all
  mark_all_marked log w [] s o i a m = m
  mark_all_marked log w (x ∷ rs) s o i a m =
      mark_all_marked log w rs (C.mark_commit x s) o.1 i.1 a.1
        λ y k. elim (CL.mark_marked x s y o.0 k) [ inl u ↦ (x, u, i.0, a.0) | inr old ↦ m y old ]

  mark_all-Committed :
      (rs : List KafkaRecord) (s : C.State) (r : KafkaRecord)
      → CL.Committed (mark_all json C W rs s) r
      → CL.Committed s r
  unfolding mark_all
  mark_all-Committed [] s r h = h
  mark_all-Committed (x ∷ rs) s r h =
      CL.mark_committed x s r (mark_all-Committed rs (C.mark_commit x s) r h)

  commit_batch-IsSafe :
      (log rs : List KafkaRecord) (p : Pipeline json C W)
      → All CL.Own rs
      → All (λ r. In r log) rs
      → All (Handled json W WL p.sink) rs
      → IsSafe log p
      → IsSafe log (commit_batch json C W rs p).0
  commit_batch-IsSafe log rs p own i a h =
      let all_marked = mark_all_marked log p.sink rs p.cons own i a h.marked in
      let s = mark_all json C W rs p.cons in
      record {
        marked = λ r m. all_marked r (CL.commit_marked s r m);
        committed = λ r c. elim (CL.commit_committed s r c) [
          | inl old ↦ h.committed r (mark_all-Committed rs p.cons r old)
          | inr new ↦ inr (all_marked r new)
        ];
      }

  after_apply-IsSafe :
      (log rs : List KafkaRecord) (n : ℕ) (p : Pipeline json C W) (o : Option E)
      → All CL.Own rs
      → All (λ r. In r log) rs
      → (o ≡ none → All (Handled json W WL p.sink) rs)
      → IsSafe log p
      → IsSafe log (after_apply json C W rs n p o).0
  after_apply-IsSafe log rs n p none own i a h = commit_batch-IsSafe log rs p own i (a refl) h
  after_apply-IsSafe log rs n p (some e) own i a h = h

  apply_events-Passed :
      (log : List KafkaRecord) (evs : List CdcEvent) (s : W.State) (r : KafkaRecord)
      → Passed json W WL log s r
      → Passed json W WL log (apply_events json C W evs s).0 r
  apply_events-Passed log [] s r h = h
  apply_events-Passed log (ev ∷ evs) s r h = Passed-stays json W WL log (ev ∷ evs) s r h

  after_decode-IsSafe :
      (log rs : List KafkaRecord) (p : Pipeline json C W) (b : Batch)
      → decode_all json rs ≡ b
      → All CL.Own rs
      → All (λ r. In r log) rs
      → IsSafe log p
      → IsSafe log (after_decode json C W rs p b).0
  after_decode-IsSafe log rs p (undecoded offset e) d own i h = h
  after_decode-IsSafe log rs p (events evs) d own i h =
      let r = apply_events json C W evs p.sink in
      after_apply-IsSafe log rs (length evs) (record p { sink = r.0 }) r.1 own i
        (λ e.
          applied-Handled json W WL r.0 rs evs d (apply_events-applied json C W WL evs p.sink e))
        (record {
          marked = λ x m. apply_events-Passed log evs p.sink x (h.marked x m);
          committed = λ x c. elim (h.committed x c) [
            | inl old ↦ inl old
            | inr d ↦ inr (apply_events-Passed log evs p.sink x d)
          ];
        })

  after_poll-IsSafe :
      (log : List KafkaRecord) (p : Pipeline json C W) (o : PollResult E)
      → All CL.Own (polled o)
      → All (λ r. In r log) (polled o)
      → IsSafe log p
      → IsSafe log (after_poll json C W p o).0
  after_poll-IsSafe log p (poll_error e) own i h = h
  after_poll-IsSafe log p (records []) own i h = h
  after_poll-IsSafe log p (records (r ∷ rs)) own i h =
      after_decode-IsSafe log (r ∷ rs) p _ refl own i h

  -- A round keeps it true that all that is marked or committed is passed by a handled record,
  -- whether or not it fails.
  pub run_once-IsSafe :
      (log : List KafkaRecord) (p : Pipeline json C W)
      → IsSafe log p
      → IsSafe (polled (C.poll p.cons).1 ++ log) (run_once json C W p).0
  unfolding run_once
  run_once-IsSafe log p h =
      let (s, o) = C.poll p.cons in
      after_poll-IsSafe (polled o ++ log) (record p { cons = s }) o (CL.poll_own p.cons)
        (All-In-left (polled o) log)
        (record {
          marked = λ x m.
              Passed-grows json W WL (polled o) log p.sink x
                (h.marked x (CL.poll_marked p.cons x m));
          committed = λ x c. elim (h.committed x (CL.poll_committed p.cons x c)) [
            | inl old ↦ inl old
            | inr d ↦ inr (Passed-grows json W WL (polled o) log p.sink x d)
          ];
        })

  -- Marks and commits are offsets, and a mark covers the records of its partition up to its own.
  -- However many rounds run, and whichever of them fail, every record that the client has marked,
  -- or has committed and not before the start, is at or before a record of its partition that was
  -- polled and is a tombstone or has had its event applied: no new offset goes past the last
  -- handled record. This holds from any start where it holds, for a client that marks and commits
  -- nothing on its own and a writer that applies a batch whole when it returns no error.
  pub run_rounds-IsSafe :
      (n : ℕ) (log : List KafkaRecord) (p : Pipeline json C W)
      → IsSafe log p
      → IsSafe (polls json C W n p log) (run_rounds json C W n p)
  unfolding run_rounds polls
  run_rounds-IsSafe zero log p h = h
  run_rounds-IsSafe (suc n) log p h =
      run_rounds-IsSafe n (polled (C.poll p.cons).1 ++ log) (run_once json C W p).0
        (run_once-IsSafe log p h)
