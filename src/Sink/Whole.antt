-- ===== src/Sink/Whole.antt =====
-- From Kafka to MongoDB: the sink as `main` puts it together, down to the documents on the
-- server.
use mathlib.Core.Path.{subst}
use public_pg2mongo_cd_c.Base.{
  ℕ, Option, none, some, inl, inr, ◌≡◌, ap, refl, List, [], ◌∷◌, All, Dict,
}
use public_pg2mongo_cd_c.Writer.{CdcEvent, WriteModel, doc_id}
use public_pg2mongo_cd_c.Writer.Server.{Server, IsLawful, RunsSome, DriverError}
use public_pg2mongo_cd_c.Writer.Exec.{row, IsPlain}
use public_pg2mongo_cd_c.Writer.Reached.{Reached}
use public_pg2mongo_cd_c.Writer.Batch.{WriterError, MongoWriter, World}
use public_pg2mongo_cd_c.Writer.Batch.{apply_batch as write_batch}
use public_pg2mongo_cd_c.Writer.Batch.Effect.{Native}
use public_pg2mongo_cd_c.Writer.Batch.Tables.{IsRange}
use public_pg2mongo_cd_c.Writer.Journal.{handed, Keeps, current, journaled, journaled_laws, Kept}
use public_pg2mongo_cd_c.Writer.Replay.{Below, Loses}
use public_pg2mongo_cd_c.Writer.Batch.Redelivery.{of_doc}
use public_pg2mongo_cd_c.Writer.Newest.{IsLatest, Held-Reached, of_doc-Keeps, current-Held}
use public_pg2mongo_cd_c.Decoder.{Json, decode, ok}
use public_pg2mongo_cd_c.Kgo.{Client}
use public_pg2mongo_cd_c.Kafka.{franz_consumer}
use public_pg2mongo_cd_c.Consumer.{KafkaRecord, Writer, Pipeline, run_rounds}
use public_pg2mongo_cd_c.Consumer.Rounds.{Taken, Taken-Handled}
use public_pg2mongo_cd_c.Consumer.Simulate.{run_rounds-seen, Taken-seen}
use public_pg2mongo_cd_c.Checkpoint.{Progress}
use public_pg2mongo_cd_c.Sink.Instrument.{Instrumented, Metrics, apply_batch, after_inner}
use public_pg2mongo_cd_c.Sink.Through.{through_laws}
use public_pg2mongo_cd_c.Sink.Wiring.{instrumented_writer}

module _ (json : Json) (C : Client WriterError) (S : Server)
    (range : Dict (List WriteModel) → Dict (List WriteModel)) (m : MongoWriter)
    (view : WriterError → DriverError) (clock : World S → ℕ) where
  -- `newInstrumentedWriter` over `NewMongoWriter`.
  abbrev pub mongo_writer : Writer WriterError
  mongo_writer = instrumented_writer (write_batch S range m) view clock

  -- The same with the journal of its batches.
  abbrev pub told_writer : World S → Writer WriterError
  told_writer w =
      instrumented_writer (journaled S range m w) view (λ bs. clock (current S range m w bs))

  abbrev pub untold :
      (w : World S)
      → Instrumented (journaled S range m w) view
      → Instrumented (write_batch S range m) view
  untold w i = record {
    sink = current S range m w i.sink;
    metrics = i.metrics;
    progress = i.progress;
  }

  after_inner-untold :
      (w : World S) (now : ℕ) (evs : List CdcEvent) (i : Instrumented (journaled S range m w) view)
      (bs : List (List CdcEvent)) (o : Option WriterError)
      → after_inner (write_batch S range m) view now evs (untold w i) (current S range m w bs, o)
        ≡ (
          untold w (after_inner (journaled S range m w) view now evs i (bs, o)).0,
          (after_inner (journaled S range m w) view now evs i (bs, o)).1,
        )
  after_inner-untold w now evs i bs none = refl
  after_inner-untold w now evs i bs (some e) = refl

  untold_alike :
      (w : World S) (evs : List CdcEvent) (i : Instrumented (journaled S range m w) view)
      → mongo_writer.apply_batch evs (untold w i)
        ≡ (untold w ((told_writer w).apply_batch evs i).0, ((told_writer w).apply_batch evs i).1)
  unfolding apply_batch
  untold_alike w evs i =
      after_inner-untold w (clock (current S range m w i.sink)) evs i (evs ∷ i.sink)
        (write_batch S range m evs (current S range m w i.sink)).1

  -- The sink at its start, for the client and the server as they are then.
  abbrev pub sink_start :
      C.State → World S → Metrics → Option Progress → Pipeline json (franz_consumer C) mongo_writer
  sink_start s w ms o = record { cons = s; sink = record { sink = w; metrics = ms; progress = o } }

  abbrev pub told_start :
      C.State
      → (w : World S) → Metrics
      → Option Progress
      → Pipeline json (franz_consumer C) (told_writer w)
  told_start s w ms o = record { cons = s; sink = record { sink = []; metrics = ms; progress = o } }

  -- The batches that `n` rounds hand to the writer.
  unfoldable pub batches_of :
      ℕ → C.State → World S → Metrics → Option Progress → List (List CdcEvent)
  batches_of n s w ms o =
      (run_rounds json (franz_consumer C) (told_writer w) n (told_start s w ms o)).sink.sink

  run_rounds-current :
      (n : ℕ) (s : C.State) (w : World S) (ms : Metrics) (o : Option Progress)
      → (run_rounds json (franz_consumer C) mongo_writer n (sink_start s w ms o)).sink.sink
        ≡ current S range m w (batches_of n s w ms o)
  unfolding batches_of
  run_rounds-current n s w ms o =
      ap (λ (p : Pipeline json (franz_consumer C) mongo_writer). p.sink.sink)
        (run_rounds-seen json (franz_consumer C) (told_writer w) mongo_writer (untold w)
          (untold_alike w) n (told_start s w ms o))

  -- Let the sink run as main puts it together, for any number of rounds of which any may fail. The
  -- document of every event whose record was polled by a round that returned no error is at the end
  -- on the server and carries the LSN of the event or a greater one, if the writer was handed no
  -- delete of that document and plain column names only, and the documents carried a number or
  -- nothing as their LSN at the start. A bulk write is over when it answers, and has run some of
  -- its models whatever it answers.
  pub run_rounds-Reached :
      (L : IsLawful S) (R : RunsSome S) (n : ℕ) (s : C.State) (w : World S) (ms : Metrics)
      (o : Option Progress)
      → IsRange range
      → Native S L m.schema_version w.store
      → All IsPlain (handed (batches_of n s w ms o))
      → (r : KafkaRecord) (ev : CdcEvent) → decode json r.key r.value ≡ ok ev
      → All (Keeps ev.table (doc_id ev)) (handed (batches_of n s w ms o))
      → Taken json (franz_consumer C) mongo_writer n (sink_start s w ms o) r
      → Reached ev.lsn (
          row S
            (run_rounds json
              (franz_consumer C)
              mongo_writer
              n
              (sink_start s w ms o)).sink.sink.store
            ev.table
            (doc_id ev))
  unfolding batches_of
  run_rounds-Reached L R n s w ms o range_ok nat plain r ev d keeps t =
      let told = told_start s w ms o in
      let same =
        run_rounds-seen json (franz_consumer C) (told_writer w) mongo_writer (untold w)
          (untold_alike w) n told in
      let laws =
        through_laws (journaled S range m w) view _ (journaled_laws S L R range m w range_ok nat) in
      let taken =
        Taken-seen json (franz_consumer C) (told_writer w) mongo_writer (untold w) (untold_alike w)
          n told r t in
      rw same (elim (Taken-Handled json (franz_consumer C) (told_writer w) laws n told r taken) [
        | inl e ↦ cc
        | inr (ev', d', a) ↦
            let e : ev' ≡ ev = cc in
            subst (Kept S range m w (batches_of n s w ms o)) e a plain keeps
      ])

  -- Let the sink run as main puts it together, for any number of rounds of which any may fail. If
  -- the record of an upsert was polled by a round that returned no error, and every other event of
  -- its document that the writer was handed is an upsert with a lower LSN or the same event, then
  -- the document on the server carries every field that the event writes, over whatever other
  -- columns it has, in whatever order and however often the events came; the document was absent or
  -- below that LSN at the start, all column names are plain, all documents carried a number or
  -- nothing as their LSN, and a bulk write is over when it answers and has run some of its models.
  pub run_rounds-IsLatest :
      (L : IsLawful S) (R : RunsSome S) (n : ℕ) (s : C.State) (w : World S) (ms : Metrics)
      (o : Option Progress)
      → IsRange range
      → Native S L m.schema_version w.store
      → All IsPlain (handed (batches_of n s w ms o))
      → (r : KafkaRecord) (ev : CdcEvent) → decode json r.key r.value ≡ ok ev
      → All (Loses ev) (of_doc ev.table (doc_id ev) (handed (batches_of n s w ms o)))
      → Below ev.lsn (row S w.store ev.table (doc_id ev))
      → Taken json (franz_consumer C) mongo_writer n (sink_start s w ms o) r
      → IsLatest m.schema_version ev (
          row S
            (run_rounds json
              (franz_consumer C)
              mongo_writer
              n
              (sink_start s w ms o)).sink.sink.store
            ev.table
            (doc_id ev))
  run_rounds-IsLatest L R n s w ms o range_ok nat plain r ev d wins below t =
      let bs = batches_of n s w ms o in
      Held-Reached m.schema_version ev _
        (rw (run_rounds-current n s w ms o)
          (current-Held S L R range m w range_ok nat bs ev.table (doc_id ev) ev plain wins below))
        (run_rounds-Reached L R n s w ms o range_ok nat plain r ev d
          (of_doc-Keeps ev.table (doc_id ev) ev (handed bs) wins) t)
