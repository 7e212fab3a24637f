-- ===== src/Consumer/Failure.antt =====
-- Rounds that fail, and rounds that return no error.
use public_pg2mongo_cd_c.Base.{Option, none, some, ◌≡◌, refl, List, [], ◌∷◌, All, length}
use public_pg2mongo_cd_c.Decoder.{Json}
use public_pg2mongo_cd_c.Consumer.{polled}
use public_pg2mongo_cd_c.Consumer.{
  KafkaRecord, KafkaConsumer, Writer, PollResult, records, poll_error, LoopError, poll_failed,
  decode_failed, apply_failed, commit_failed, Batch, events, undecoded, decode_all, Pipeline,
  run_once, after_apply, after_decode, after_poll, apply_events, commit_result,
}
use public_pg2mongo_cd_c.Consumer.Laws.{WriterLaws}
use public_pg2mongo_cd_c.Consumer.Handled.{Handled, applied-Handled, apply_events-applied}

-- An error before the commit.
abbrev pub BeforeCommit : {E : Type 0} → Option (LoopError E) → Type 0
BeforeCommit none = ⊥
BeforeCommit (some (commit_failed e)) = ⊥
BeforeCommit (some (poll_failed e)) = Unit
BeforeCommit (some (decode_failed o e)) = Unit
BeforeCommit (some (apply_failed n e)) = Unit

module _ {E : Type 0} (json : Json) (C : KafkaConsumer E) (W : Writer E) where
  not_commit : (o : Option E) → ¬ BeforeCommit (commit_result json C W o)
  not_commit none b = b
  not_commit (some e) b = b

  after_apply-cons :
      (rs : List KafkaRecord) (n : _) (p : Pipeline json C W) (o : Option E)
      → BeforeCommit (after_apply json C W rs n p o).1
      → (after_apply json C W rs n p o).0.cons ≡ p.cons
  after_apply-cons rs n p none b = absurd (not_commit _ b)
  after_apply-cons rs n p (some e) b = refl

  after_decode-cons :
      (rs : List KafkaRecord) (p : Pipeline json C W) (d : Batch)
      → BeforeCommit (after_decode json C W rs p d).1
      → (after_decode json C W rs p d).0.cons ≡ p.cons
  after_decode-cons rs p (undecoded o e) b = refl
  after_decode-cons rs p (events evs) b =
      let r = apply_events json C W evs p.sink in
      after_apply-cons rs (length evs) (record p { sink = r.0 }) r.1 b

  after_poll-cons :
      (p : Pipeline json C W) (o : PollResult E)
      → BeforeCommit (after_poll json C W p o).1
      → (after_poll json C W p o).0.cons ≡ p.cons
  after_poll-cons p (poll_error e) b = refl
  after_poll-cons p (records []) b = absurd b
  after_poll-cons p (records (r ∷ rs)) b = after_decode-cons (r ∷ rs) p _ b

  -- A round that fails before the commit leaves the client as its poll left it: nothing is marked
  -- or committed, and nothing is moved back.
  run_once_failed :
      (p : Pipeline json C W)
      → BeforeCommit (run_once json C W p).1
      → (run_once json C W p).0.cons ≡ (C.poll p.cons).0
  unfolding run_once
  run_once_failed p b = after_poll-cons (record p { cons = (C.poll p.cons).0 }) (C.poll p.cons).1 b

  module _ (WL : WriterLaws W) where
    after_apply-Handled :
        (rs : List KafkaRecord) (n : _) (p : Pipeline json C W) (o : Option E)
        → (o ≡ none → All (Handled json W WL p.sink) rs)
        → (after_apply json C W rs n p o).1 ≡ none
        → All (Handled json W WL (after_apply json C W rs n p o).0.sink) rs
    after_apply-Handled rs n p none a h = a refl
    after_apply-Handled rs n p (some e) a h = cc

    after_decode-Handled :
        (rs : List KafkaRecord) (p : Pipeline json C W) (d : Batch)
        → decode_all json rs ≡ d
        → (after_decode json C W rs p d).1 ≡ none
        → All (Handled json W WL (after_decode json C W rs p d).0.sink) rs
    after_decode-Handled rs p (undecoded o e) d h = cc
    after_decode-Handled rs p (events evs) d h =
        let r = apply_events json C W evs p.sink in
        after_apply-Handled rs (length evs) (record p { sink = r.0 }) r.1
          (λ e.
            applied-Handled json W WL r.0 rs evs d (apply_events-applied json C W WL evs p.sink e))
          h

    after_poll-Handled :
        (p : Pipeline json C W) (o : PollResult E)
        → (after_poll json C W p o).1 ≡ none
        → All (Handled json W WL (after_poll json C W p o).0.sink) (polled o)
    after_poll-Handled p (poll_error e) h = cc
    after_poll-Handled p (records []) h = tt
    after_poll-Handled p (records (r ∷ rs)) h = after_decode-Handled (r ∷ rs) p _ refl h

    -- A round that returns no error has handled every record that it polled: each is a tombstone or
    -- has had its event applied.
    pub run_once-Handled :
        (p : Pipeline json C W)
        → (run_once json C W p).1 ≡ none
        → All (Handled json W WL (run_once json C W p).0.sink) (polled (C.poll p.cons).1)
    unfolding run_once
    run_once-Handled p h =
        after_poll-Handled (record p { cons = (C.poll p.cons).0 }) (C.poll p.cons).1 h
