-- ===== src/Consumer/Rounds.antt =====
-- The records of the rounds that return no error, whatever the rounds before and after them do.
use public_pg2mongo_cd_c.Base.{
  ℕ, zero, suc, Option, none, some, ◌≡◌, ◌⊎◌, inl, inr, List, [], ◌∷◌, In, In-all, length,
}
use public_pg2mongo_cd_c.Writer.{CdcEvent}
use public_pg2mongo_cd_c.Decoder.{Json}
use public_pg2mongo_cd_c.Consumer.{
  polled, KafkaRecord, KafkaConsumer, Writer, PollResult, records, poll_error, Batch, events,
  undecoded, decode_all, Pipeline, run_once, run_rounds, after_apply, after_decode, after_poll,
  apply_events,
}
use public_pg2mongo_cd_c.Consumer.Laws.{WriterLaws}
use public_pg2mongo_cd_c.Consumer.Handled.{Handled, Handled-stays}
use public_pg2mongo_cd_c.Consumer.Failure.{run_once-Handled}

module _ {E : Type 0} (json : Json) (C : KafkaConsumer E) (W : Writer E) where
  -- The record was polled by one of the `n` rounds, and that round returned no error.
  unfoldable pub Taken : ℕ → Pipeline json C W → KafkaRecord → Type 0
  Taken zero p r = ⊥
  Taken (suc n) p r =
      (((run_once json C W p).1 ≡ none) × In r (polled (C.poll p.cons).1))
      ⊎ Taken n (run_once json C W p).0 r

  module _ (WL : WriterLaws W) where
    after_apply-stays :
        (rs : List KafkaRecord) (n : ℕ) (p : Pipeline json C W) (o : Option E) (r : KafkaRecord)
        → Handled json W WL p.sink r
        → Handled json W WL (after_apply json C W rs n p o).0.sink r
    after_apply-stays rs n p none r h = h
    after_apply-stays rs n p (some e) r h = h

    apply_events-stays :
        (evs : List CdcEvent) (s : W.State) (r : KafkaRecord)
        → Handled json W WL s r
        → Handled json W WL (apply_events json C W evs s).0 r
    apply_events-stays [] s r h = h
    apply_events-stays (ev ∷ evs) s r h = Handled-stays json W WL (ev ∷ evs) s r h

    after_decode-stays :
        (rs : List KafkaRecord) (p : Pipeline json C W) (d : Batch) (r : KafkaRecord)
        → Handled json W WL p.sink r
        → Handled json W WL (after_decode json C W rs p d).0.sink r
    after_decode-stays rs p (undecoded o e) r h = h
    after_decode-stays rs p (events evs) r h =
        let a = apply_events json C W evs p.sink in
        after_apply-stays rs (length evs) (record p { sink = a.0 }) a.1 r
          (apply_events-stays evs p.sink r h)

    after_poll-stays :
        (p : Pipeline json C W) (o : PollResult E) (r : KafkaRecord)
        → Handled json W WL p.sink r
        → Handled json W WL (after_poll json C W p o).0.sink r
    after_poll-stays p (poll_error e) r h = h
    after_poll-stays p (records []) r h = h
    after_poll-stays p (records (x ∷ rs)) r h =
        after_decode-stays (x ∷ rs) p (decode_all json (x ∷ rs)) r h

    run_rounds-stays :
        (n : ℕ) (p : Pipeline json C W) (r : KafkaRecord)
        → Handled json W WL p.sink r
        → Handled json W WL (run_rounds json C W n p).sink r
    unfolding run_rounds run_once
    run_rounds-stays zero p r h = h
    run_rounds-stays (suc n) p r h =
        run_rounds-stays n (run_once json C W p).0 r
          (after_poll-stays (record p { cons = (C.poll p.cons).0 }) (C.poll p.cons).1 r h)

    pub Taken-Handled :
        (n : ℕ) (p : Pipeline json C W) (r : KafkaRecord)
        → Taken n p r
        → Handled json W WL (run_rounds json C W n p).sink r
    unfolding Taken run_rounds
    Taken-Handled zero p r t = absurd t
    Taken-Handled (suc n) p r (inl (e, i)) = run_rounds-stays n (run_once json C W p).0 r (
        In-all (Handled json W WL (run_once json C W p).0.sink) r (polled (C.poll p.cons).1) i
          (run_once-Handled json C W WL p e))
    Taken-Handled (suc n) p r (inr t) = Taken-Handled n (run_once json C W p).0 r t
