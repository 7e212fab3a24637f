-- ===== src/Sink/Through.antt =====
-- `instrumentedWriter` as a writer whose batches are those of the writer in it.
use public_pg2mongo_cd_c.Base.{ℕ, Option, none, some, ◌≡◌, refl, List, All}
use public_pg2mongo_cd_c.Writer.{CdcEvent}
use public_pg2mongo_cd_c.Writer.Server.{DriverError}
use public_pg2mongo_cd_c.Consumer.Laws.{WriterLaws}
use public_pg2mongo_cd_c.Sink.Instrument.{Instrumented, apply_batch, after_inner}
use public_pg2mongo_cd_c.Sink.Wiring.{instrumented_writer}

-- The instrumented writer applies what the writer in it applies.
module _ {S : Type 0} {E : Type 0} (inner : List CdcEvent → S → S × Option E)
    (view : E → DriverError) (clock : S → ℕ)
    (WL : WriterLaws (record { State = S; apply_batch = inner })) where
  passed :
      (now : ℕ) (evs : List CdcEvent) (i : Instrumented inner view) (r : S × Option E)
      → ((after_inner inner view now evs i r).0.sink ≡ r.0)
        × ((after_inner inner view now evs i r).1 ≡ r.1)
  passed now evs i (s, none) = (refl, refl)
  passed now evs i (s, some e) = (refl, refl)

  pub inner-applied_all :
      (evs : List CdcEvent) (i : Instrumented inner view)
      → (apply_batch inner view (clock i.sink) evs i).1 ≡ none
      → All (WL.Applied (apply_batch inner view (clock i.sink) evs i).0.sink) evs
  unfolding apply_batch
  inner-applied_all evs i h =
      let (s, e) = passed (clock i.sink) evs i (inner evs i.sink) in
      rw s (WL.applied_all evs i.sink (rw e at h))

  pub inner-applied_stays :
      (evs : List CdcEvent) (i : Instrumented inner view) (ev : CdcEvent)
      → WL.Applied i.sink ev
      → WL.Applied (apply_batch inner view (clock i.sink) evs i).0.sink ev
  unfolding apply_batch
  inner-applied_stays evs i ev h =
      rw (passed (clock i.sink) evs i (inner evs i.sink)).0 (WL.applied_stays evs i.sink ev h)

  abbrev pub through_laws : WriterLaws (instrumented_writer inner view clock)
  through_laws = record {
    Applied = λ i ev. WL.Applied i.sink ev;
    applied_all = inner-applied_all;
    applied_stays = inner-applied_stays;
  }
