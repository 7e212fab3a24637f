-- ===== src/Sink/Wiring.antt =====
-- The sink as `main` puts it together: the loop over franz-go and the instrumented writer.
use public_pg2mongo_cd_c.Base.{
  ℕ, Option, none, some, ℤ, pos, ◌≤ℤ◌, leb_ℤ, ◌⊎◌, inl, inr, ◌≡◌, refl, arith, List, [], ◌∷◌, All,
  In, length, Bool-cases,
}
use public_pg2mongo_cd_c.Writer.{CdcEvent}
use public_pg2mongo_cd_c.Writer.Server.{DriverError}
use public_pg2mongo_cd_c.Decoder.{Json, decode, ok, err, tombstone}
use public_pg2mongo_cd_c.Kgo.{KgoRecord, Client, GroupLaws}
use public_pg2mongo_cd_c.Kafka.{franz_consumer, record_of}
use public_pg2mongo_cd_c.Kafka.Group.{FromRaw, franz_laws}
use public_pg2mongo_cd_c.Consumer.{KafkaRecord, Writer, Pipeline, run_rounds}
use public_pg2mongo_cd_c.Consumer.Laws.{WriterLaws, Upto}
use public_pg2mongo_cd_c.Consumer.Delivery.{polls, run_rounds-IsSafe}
use public_pg2mongo_cd_c.Checkpoint.{Progress, mark_progress, raised}
use public_pg2mongo_cd_c.Checkpoint.Flush.{raised_le}
use public_pg2mongo_cd_c.Sink.Instrument.{
  Instrumented, apply_batch, after_inner, max_lsn, max_lsn_covers, marked,
}

-- A position that is not positive needs no checkpoint.
abbrev pub Covers : Option Progress → ℤ → Type 0
Covers none lsn = Unit
Covers (some p) lsn = (lsn ≤ℤ pos 0) ⊎ (lsn ≤ℤ p.max_lsn)

raised-covers : (m cur lsn : ℤ) → lsn ≤ℤ m → (lsn ≤ℤ pos 0) ⊎ (lsn ≤ℤ raised m cur)
raised-covers m cur lsn h = elim (Bool-cases (leb_ℤ lsn (pos 0))) [
  | inl low ↦ inl (ground arith)
  | inr high ↦ inr (ground arith)
]

All-Covers :
    (evs : List CdcEvent) (m : ℤ) (size : ℤ) (p : Progress)
    → All (λ (ev : CdcEvent). ev.lsn ≤ℤ m) evs
    → All (λ (ev : CdcEvent). Covers (some (mark_progress m size p)) ev.lsn) evs
unfolding mark_progress
All-Covers [] m size p h = tt
All-Covers (ev ∷ evs) m size p h =
    (raised-covers m p.max_lsn ev.lsn h.0, All-Covers evs m size p h.1)

All-Covers-none : (evs : List CdcEvent) → All (λ (ev : CdcEvent). Covers none ev.lsn) evs
All-Covers-none [] = tt
All-Covers-none (ev ∷ evs) = (tt, All-Covers-none evs)

raised-stays :
    (m size lsn : ℤ) (p : Progress)
    → Covers (some p) lsn
    → Covers (some (mark_progress m size p)) lsn
unfolding mark_progress
raised-stays m size lsn p (inl low) = inl low
raised-stays m size lsn p (inr h) = inr (omega (arith, raised_le m p.max_lsn))

module _ {S : Type 0} {E : Type 0} (inner : List CdcEvent → S → S × Option E)
    (view : E → DriverError) (clock : S → ℕ) where
  -- `newInstrumentedWriter`, as the loop's writer.
  abbrev pub instrumented_writer : Writer E
  instrumented_writer = record {
    State = Instrumented inner view;
    apply_batch = λ evs i. apply_batch inner view (clock i.sink) evs i;
  }

  abbrev pub Applied : Instrumented inner view → CdcEvent → Type 0
  Applied i ev = Covers i.progress ev.lsn

  marked-Covers :
      (evs : List CdcEvent) (o : Option Progress)
      → All (λ (ev : CdcEvent). Covers (marked inner view evs o) ev.lsn) evs
  marked-Covers evs none = All-Covers-none evs
  marked-Covers evs (some p) =
      All-Covers evs (max_lsn evs (pos 0)) (pos (length evs)) p (max_lsn_covers evs (pos 0)).1

  after_inner-covers :
      (now : ℕ) (evs : List CdcEvent) (i : Instrumented inner view) (r : S × Option E)
      → (after_inner inner view now evs i r).1 ≡ none
      → All (Applied (after_inner inner view now evs i r).0) evs
  after_inner-covers now evs i (s, some e) h = cc
  after_inner-covers now evs i (s, none) h = marked-Covers evs i.progress

  marked-stays :
      (evs : List CdcEvent) (o : Option Progress) (lsn : ℤ)
      → Covers o lsn
      → Covers (marked inner view evs o) lsn
  marked-stays evs none lsn h = tt
  marked-stays evs (some p) lsn h = raised-stays (max_lsn evs (pos 0)) (pos (length evs)) lsn p h

  after_inner-stays :
      (now : ℕ) (evs : List CdcEvent) (i : Instrumented inner view) (r : S × Option E)
      (ev : CdcEvent)
      → Applied i ev
      → Applied (after_inner inner view now evs i r).0 ev
  after_inner-stays now evs i (s, some e) ev h = h
  after_inner-stays now evs i (s, none) ev h = marked-stays evs i.progress ev.lsn h

  pub apply_batch-covers :
      (evs : List CdcEvent) (i : Instrumented inner view)
      → (apply_batch inner view (clock i.sink) evs i).1 ≡ none
      → All (Applied (apply_batch inner view (clock i.sink) evs i).0) evs
  unfolding apply_batch
  apply_batch-covers evs i h = after_inner-covers (clock i.sink) evs i (inner evs i.sink) h

  pub apply_batch-stays :
      (evs : List CdcEvent) (i : Instrumented inner view) (ev : CdcEvent)
      → Applied i ev
      → Applied (apply_batch inner view (clock i.sink) evs i).0 ev
  unfolding apply_batch
  apply_batch-stays evs i ev h = after_inner-stays (clock i.sink) evs i (inner evs i.sink) ev h

  -- What it means here that an event is applied: the checkpoint in memory is not behind it.
  abbrev pub instrumented_laws : WriterLaws instrumented_writer
  instrumented_laws = record {
    Applied = Applied;
    applied_all = apply_batch-covers;
    applied_stays = apply_batch-stays;
  }

  module _ (json : Json) (C : Client E) (L : GroupLaws C) where
    -- Let the loop run over franz-go with the instrumented writer, from a state where nothing is
    -- marked. After any number of rounds each record that the committed offsets cover, and did not
    -- cover at the start, is at or before a record of its partition that was polled and is a
    -- tombstone or decodes to an event; the checkpoint in memory, if there is one, is then not
    -- behind that event's LSN, if that is positive. The client marks and commits nothing but by its
    -- calls, and a mark covers the records up to its own.
    pub run_rounds-Covers :
        (n : ℕ) (start : Pipeline json (franz_consumer C) instrumented_writer)
        → ((k : KgoRecord) → ¬ L.Marked start.cons k)
        → (k : KgoRecord)
        → L.Committed (run_rounds json (franz_consumer C) instrumented_writer n start).cons k
        → FromRaw (L.Committed start.cons) (record_of k)
          ⊎ ((r : KafkaRecord) × Upto (record_of k) r
              × In r (polls json (franz_consumer C) instrumented_writer n start [])
              × ((decode json r.key r.value ≡ err tombstone)
                  ⊎ ((ev : CdcEvent) × (decode json r.key r.value ≡ ok ev)
                      × Covers
                          (run_rounds json
                            (franz_consumer C)
                            instrumented_writer
                            n
                            start).sink.progress
                          ev.lsn)))
    run_rounds-Covers n start unmarked k c =
        (run_rounds-IsSafe json (franz_consumer C) instrumented_writer (franz_laws C L)
            instrumented_laws (FromRaw (L.Committed start.cons)) n [] start
            (record {
              marked = λ r (j, e, m). absurd (unmarked j m);
              committed = λ r m. inl m;
            })).committed
          (record_of k) (k, refl, c)
