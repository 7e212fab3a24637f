-- ===== src/Tests/WholeTests.antt =====
-- The whole sink at a concrete start: two records, the in-memory server and the small client.
use public_pg2mongo_cd_c.Base.{
  ℕ, String, false, inl, inr, none, some, pos, ◌≡◌, refl, List, [], ◌∷◌, All, length, eqb,
  if◌then◌else◌, str_dec,
}
use public_pg2mongo_cd_c.Value.{str, end, field, get, put, copy}
use public_pg2mongo_cd_c.Writer.{
  CdcEvent, build_write_op, delete_op, upsert_op, set_fields, to_mongo_model, doc_id,
}
use public_pg2mongo_cd_c.Writer.Server.{DriverError, is_plain, run_each}
use public_pg2mongo_cd_c.Writer.Exec.{row, IsPlain}
use public_pg2mongo_cd_c.Writer.Reached.{Reached}
use public_pg2mongo_cd_c.Writer.Batch.{
  WriterError, World, group_events, write_tables, bulk_write_table, record_skip, all_duplicate_key,
}
use public_pg2mongo_cd_c.Writer.Batch.{apply_batch as write_batch}
use public_pg2mongo_cd_c.Writer.Journal.{handed, Keeps}
use public_pg2mongo_cd_c.Writer.Replay.{Loses}
use public_pg2mongo_cd_c.Writer.Batch.Redelivery.{of_doc}
use public_pg2mongo_cd_c.Writer.Newest.{IsLatest}
use public_pg2mongo_cd_c.Base.{arith}
use public_pg2mongo_cd_c.Decoder.{
  ValueEnvelope, KeyEnvelope, Json, decode, ok, is_tombstone, event_of, trim_space,
}
use public_pg2mongo_cd_c.Decoder.Number.{int64}
use public_pg2mongo_cd_c.Kgo.{KgoRecord}
use public_pg2mongo_cd_c.Kafka.{record_of, franz_consumer, poll, mark_commit, commit_marked}
use public_pg2mongo_cd_c.Consumer.{Pipeline, run_once, run_rounds, mark_all, decode_all}
use public_pg2mongo_cd_c.Consumer.Rounds.{Taken}
use public_pg2mongo_cd_c.Sink.Instrument.{Metrics, apply_batch}
use public_pg2mongo_cd_c.Sink.Whole.{
  mongo_writer, sink_start, batches_of, run_rounds-Reached, run_rounds-IsLatest,
}
use public_pg2mongo_cd_c.Tests.Memory.{
  memory, matches, op_matches, updated, lay, find, checked, store, exec, bulk_write, tally,
  reply_of,
}
use public_pg2mongo_cd_c.Tests.Memory.Laws.{memory-IsLawful, memory-RunsSome}
use public_pg2mongo_cd_c.Tests.WriterTests.{
  native, empty_row, same_IsRange, same_order, writer, start,
}
use public_pg2mongo_cd_c.Tests.GroupTests.{Cluster, cluster, waiting}
use public_pg2mongo_cd_c.Base.{lookup, insert}

abbrev envelope : String → String → ValueEnvelope
envelope lsn name = record {
  before = none;
  after = some (field "name" (str name) end);
  lsn = lsn;
  table = "users";
  ts_ms = "";
  op = "u";
}

abbrev user_seven : KeyEnvelope
user_seven = record { id = "7" }

-- A parser that tells two texts apart by their length.
abbrev by_length : Json
by_length = record {
  value_envelope = λ b. some (if eqb (length b) 2 then envelope "42" "a" else envelope "50" "b");
  key_envelope = λ b. some user_seven;
}

abbrev change : ℕ → List ℕ → KgoRecord
change n v = record {
  topic = "transformed.users";
  key = b'{' ∷ b'}' ∷ [];
  value = some v;
  headers = [];
  partition = 0;
  offset = n;
}

abbrev older : KgoRecord
older = change 4 (b'{' ∷ b'}' ∷ [])

abbrev newer : KgoRecord
newer = change 5 (b'{' ∷ b' ' ∷ b'}' ∷ [])

abbrev no_metrics : Metrics
no_metrics = record { write_errors = []; events_processed = []; replication_lag = [] }

abbrev other_error : WriterError → DriverError
other_error e = record {
  canceled = false;
  deadline_exceeded = false;
  net_error = none;
  bulk = none;
  server_error = none;
}

abbrev noon : World memory → ℕ
noon w = 12

abbrev wired : Cluster
wired = waiting (newer ∷ older ∷ [])

abbrev event : CdcEvent
event = event_of (envelope "50" "b") user_seven (pos 50)

event_decoded : decode by_length (b'{' ∷ b'}' ∷ []) (b'{' ∷ b' ' ∷ b'}' ∷ []) ≡ ok event
unfolding decode is_tombstone trim_space int64 str_dec
event_decoded = refl

abbrev old_event : CdcEvent
old_event = event_of (envelope "42" "a") user_seven (pos 42)

abbrev ended :
    Pipeline by_length
      (franz_consumer (cluster WriterError))
      (mongo_writer by_length (cluster WriterError) memory same_order writer other_error noon)
ended =
    run_rounds by_length (franz_consumer (cluster WriterError))
      (mongo_writer by_length (cluster WriterError) memory same_order writer other_error noon) 1
      (sink_start by_length (cluster WriterError) memory same_order writer other_error noon wired
        start no_metrics none)

newer-Taken :
    Taken by_length
      (franz_consumer (cluster WriterError))
      (mongo_writer by_length (cluster WriterError) memory same_order writer other_error noon)
      1
      (sink_start by_length
        (cluster WriterError)
        memory
        same_order
        writer
        other_error
        noon
        wired
        start
        no_metrics
        none)
      (record_of newer)
unfolding Taken run_rounds run_once mark_all decode_all decode is_tombstone trim_space int64 str_dec
    poll mark_commit commit_marked apply_batch write_batch group_events write_tables
    bulk_write_table record_skip all_duplicate_key build_write_op delete_op upsert_op set_fields
    to_mongo_model put copy get matches op_matches updated lay find checked store exec bulk_write
    tally reply_of run_each lookup insert
newer-Taken = inl (refl, inl refl)

one_batch :
    handed (
      batches_of by_length
        (cluster WriterError)
        memory
        same_order
        writer
        other_error
        noon
        1
        wired
        start
        no_metrics
        none)
    ≡ event ∷ old_event ∷ []
unfolding batches_of run_rounds run_once mark_all decode_all decode is_tombstone trim_space int64
    str_dec poll mark_commit commit_marked apply_batch write_batch group_events write_tables
    bulk_write_table record_skip all_duplicate_key build_write_op delete_op upsert_op set_fields
    to_mongo_model put copy get matches op_matches updated lay find checked store exec bulk_write
    tally reply_of run_each lookup insert
one_batch = refl

All-IsPlain : All IsPlain (event ∷ old_event ∷ [])
unfolding is_plain str_dec
All-IsPlain = ((refl, tt), ((refl, tt), tt))

All-Keeps : All (Keeps "users" (doc_id event)) (event ∷ old_event ∷ [])
unfolding str_dec
All-Keeps = (refl, (refl, tt))

run_rounds-Reached_example :
    Reached (pos 50) (row memory ended.sink.sink.store "users" (doc_id event))
run_rounds-Reached_example =
    run_rounds-Reached by_length (cluster WriterError) memory same_order writer other_error noon
      memory-IsLawful memory-RunsSome 1 wired start no_metrics none same_IsRange native
      (rw one_batch All-IsPlain) (record_of newer) event event_decoded (rw one_batch All-Keeps)
      newer-Taken

newer_wins : All (Loses event) (of_doc "users" (doc_id event) (event ∷ old_event ∷ []))
unfolding str_dec
newer_wins = ((refl, inr refl), ((refl, inl (omega arith)), tt))

run_rounds-IsLatest_example :
    IsLatest (pos 1) event (row memory ended.sink.sink.store "users" (doc_id event))
run_rounds-IsLatest_example =
    run_rounds-IsLatest by_length (cluster WriterError) memory same_order writer other_error noon
      memory-IsLawful memory-RunsSome 1 wired start no_metrics none same_IsRange native
      (rw one_batch All-IsPlain) (record_of newer) event event_decoded (rw one_batch newer_wins)
      (rw (empty_row "users" (doc_id event)) tt) newer-Taken
