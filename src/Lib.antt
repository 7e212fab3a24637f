-- ===== src/Lib.antt =====
-- A pipeline that copies a PostgreSQL database to MongoDB by change data capture. Debezium writes the
-- changes to Kafka topics "cdc.*"; the transformer renames fields and writes to "transformed.*"; the
-- sink decodes each record and writes it to MongoDB behind a gate on the log sequence number (LSN).
-- Delivery is at least once, so the sink must take repeated and stale events.
--
-- The files, by the code that they model:
--   Base, Value          tests, lists, integers and maps; Go's `any` and `map[string]any`
--   Writer               services/sink/internal/writer: writer.go and adapter.go (BuildWriteOp,
--                        ToMongoModel); Writer/Batch is mongo_writer.go (ApplyBatch, bulkWriteTable,
--                        recordSkip, allDuplicateKey). Writer/Gate is the specification of one
--                        document; Writer/Server is MongoDB as a parameter; Writer/Journal is the
--                        writer with a list of the batches it was handed; Writer/Exec, Writer/Replay,
--                        Writer/Reached, Writer/Newest and the children of Writer/Batch hold the proofs
--   Decoder              services/sink/internal/decoder: Decode, with json.Number.Int64 and
--                        bytes.TrimSpace written out
--   Consumer             services/sink/internal/consumer: RunOnce over the interfaces KafkaConsumer
--                        and Writer, whose laws are in Consumer/Laws; Consumer/Rounds is about the
--                        rounds that return no error, and Consumer/Simulate carries a run over one
--                        writer to another
--   Checkpoint           services/sink/internal/checkpoint: MarkProgress, flush, Run, the gauge;
--                        Checkpoint/Flush is the interleaving of marks and flushes as a step relation
--   Sink                 services/sink/cmd/sink/main.go: runLoop (Sink/Loop), backoffDuration
--                        (Sink/Backoff), classify and instrumentedWriter (Sink/Instrument); Sink/Wiring
--                        puts the loop, the adapter, the writer and the checkpoint together, and
--                        Sink/Through and Sink/Whole go on to MongoDB; Sink/Env is env and envInt, Sink/Main is main,
--                        and Sink/Tracing is services/sink/internal/tracing: Init and the carrier
--   Metrics              services/sink/internal/metrics: the collectors of New and their registration,
--                        with the gauges that checkpoint.New and lag.New register
--   Process              what Go does with defer, log.Fatalf and a panic in a main function
--   Lag                  services/sink/internal/lag: New, Probe, ageSeconds, and Run in Lag/Run
--   Kgo                  franz-go's records and client as an interface with its laws, GroupLaws and
--                        ProduceLaws
--   Kafka                services/sink/internal/kafka: Poll, MarkCommit, CommitMarked over that client;
--                        Kafka/Options is the options of New
--   Dlqtool              services/sink/cmd/dlqtool: the scan and the replay; Dlqtool/Offsets is
--                        topicOffsets and totalLag, Dlqtool/Sort is sortedKeys, Dlqtool/Main is main
--                        with its exit codes, and the other children hold the proofs
--   Mapper               services/transformer/internal/mapper: Load, ApplyJSON, the lookups, renameKeys
--   Transformer          services/transformer/cmd/transformer/main.go: runOnce, targetTopic, and
--                        the loop of main in Transformer/Loop; Transformer/Main is the rest of main,
--                        and Transformer/Renames what the sink's decoder makes of its records
--   Tracing              services/transformer/internal/tracing: the header carrier and Init
--   Loadgen              services/loadgen/internal/api: the handlers; Loadgen/Db is internal/db
--   Tests                runs at concrete inputs; Tests/Memory is a server that meets the laws
--
-- A function of the source keeps its name in snake case. State is passed explicitly: an operation
-- takes a state and returns the next one with its error, `none` for nil. An int64 is a ℤ with its
-- bounds stated where they matter; sums and shifts of 64 bits are taken `% 2 ^ 64`. A Go map is its
-- list of entries, and the order of a range over it is that list's, or a parameter. Times are whole
-- nanoseconds.
--
-- Parameters: encoding/json, yaml, strings.TrimSpace in the mapper and Init, strings.Split, the Kafka
-- clients, MongoDB, the pool of Postgres connections, the Prometheus registry, the errors of opening
-- the clients, and the trace context that OpenTelemetry's propagator writes. What is assumed of them
-- is stated in records: IsLawful (the documented effect of the two write models, of filters and of an
-- unordered bulk write), RunsSome (a bulk write is over when it answers, and has run some of its
-- models whatever it answers), ClientLaws and GroupLaws (nothing is marked or committed on the
-- client's own account; marks and commits are offsets of partitions, so a mark covers the records of
-- its partition up to its own), CommitLaws and ProgressLaws (marks stay, and a commit with no error takes
-- effect), ProduceLaws, WriterLaws, DeleteLaws, RegistryLaws (a collector with free names is
-- registered) and Bridge (the sink's parser reads what the transformer's printer
-- writes, the columns of a row in an order of the printer's).
--
-- Fuel: in Decoder, `trim_space` takes a byte at least in each round, so the length of the text is
-- enough; in Dlqtool, the scan takes two rounds for each record that it expects and three more at
-- most, since no two empty polls follow one another before its end. The endless loops (both Run,
-- runLoop, the transformer's) are runs over a list of turns, for every list.
--
-- Not modelled: tracing spans, logging, the text and the buckets of metrics, the HTTP routes and flag
-- parsing, which change no record and no offset; the start of the load generator; the code of Kafka,
-- MongoDB and Postgres; the times of a process: the goroutines that main starts are modelled each on
-- its own, and a trace of main says when they start and not when they run.
pub mod Base
pub mod Value
pub mod Writer
pub mod Decoder
pub mod Consumer
pub mod Checkpoint
pub mod Sink
pub mod Mapper
pub mod Transformer
pub mod Lag
pub mod Kgo
pub mod Process
pub mod Metrics
pub mod Tracing
pub mod Kafka
pub mod Dlqtool
pub mod Loadgen
mod Tests
