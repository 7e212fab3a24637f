-- ===== src/Tests/GroupTests.antt =====
-- The services over a small model of franz-go's client, and the trace headers between them.
use public_pg2mongo_cd_c.Base.{
  ℕ, String, Bool, true, false, none, some, ◌≡◌, refl, ◌⊎◌, inl, inr, List, [], ◌∷◌, ◌++◌, Dict, In,
  arith, lookup, str_dec,
}
use public_pg2mongo_cd_c.Kgo.{KgoRecord, fetched, Client, Among, GroupLaws, ProduceLaws}
use public_pg2mongo_cd_c.Writer.{CdcEvent}
use public_pg2mongo_cd_c.Writer.Server.{DriverError}
use public_pg2mongo_cd_c.Decoder.{decode, ok, err, tombstone, is_tombstone, trim_space}
use public_pg2mongo_cd_c.Decoder.Number.{int64}
use public_pg2mongo_cd_c.Consumer.{
  KafkaRecord, Pipeline, carrier_get, run_once, run_rounds, mark_all, decode_all,
}
use public_pg2mongo_cd_c.Consumer.Laws.{Upto}
use public_pg2mongo_cd_c.Consumer.Delivery.{polls}
use public_pg2mongo_cd_c.Kafka.{record_of, franz_consumer, poll, mark_commit, commit_marked}
use public_pg2mongo_cd_c.Kafka.Group.{FromRaw}
use public_pg2mongo_cd_c.Kafka.Headers.{carrier_get-inject}
use public_pg2mongo_cd_c.Tracing.{inject, carried}
use public_pg2mongo_cd_c.Tracing.Headers.{value_or}
use public_pg2mongo_cd_c.Sink.Instrument.{apply_batch}
use public_pg2mongo_cd_c.Sink.Wiring.{instrumented_writer, Covers, run_rounds-Covers}
use public_pg2mongo_cd_c.Mapper.{Json}
use public_pg2mongo_cd_c.Transformer.{transform, reject, each_record, on_record}
use public_pg2mongo_cd_c.Transformer.Loop.{main_loop}
use public_pg2mongo_cd_c.Transformer.Safety.{Passed, main_loop-Passed}
use public_pg2mongo_cd_c.Transformer.Safety.{polls as forwarded_polls}
use public_pg2mongo_cd_c.Tests.TransformerTests.{rules}
use public_pg2mongo_cd_c.Tests.LoopTests.{constant, text, takes_all, view, instrumented}

pub record Cluster : Type 0 where
  pub queue : List KgoRecord
  pub marked : List KgoRecord
  pub committed : List KgoRecord
  pub produced : List KgoRecord

abbrev pub cluster : (E : Type 0) → Client E
cluster E = record {
  State = Cluster;
  poll_fetches = λ s. (record s { queue = [] }, fetched s.queue);
  produce_sync = λ o s. (record s { produced = o ∷ s.produced }, none);
  mark_commit_records = λ rs s. record s { marked = rs ++ s.marked };
  commit_marked_offsets = λ s. (record s { committed = s.marked ++ s.committed }, none);
}

pub Among-append :
    (k : KgoRecord) (xs ys : List KgoRecord) → Among k (xs ++ ys) → Among k xs ⊎ Among k ys
Among-append k [] ys h = inr h
Among-append k (x ∷ xs) ys (inl e) = inl (inl e)
Among-append k (x ∷ xs) ys (inr h) = elim (Among-append k xs ys h) [
  | inl a ↦ inl (inr a)
  | inr b ↦ inr b
]

pub commit_swap :
    (k : KgoRecord) (xs ys : List KgoRecord) → Among k (xs ++ ys) → Among k ys ⊎ Among k xs
commit_swap k xs ys h = elim (Among-append k xs ys h) [ inl a ↦ inr a | inr b ↦ inl b ]

abbrev pub cluster_laws : (E : Type 0) → GroupLaws (cluster E)
cluster_laws E = record {
  Marked = λ s k. Among k s.marked;
  Committed = λ s k. Among k s.committed;
  poll_marked = λ s k h. h;
  poll_committed = λ s k h. h;
  mark_marked = λ rs s k h. elim (Among-append k rs s.marked h) [
    | inl a ↦ inl (k, a, (refl, refl, omega arith))
    | inr b ↦ inr b
  ];
  mark_committed = λ rs s k h. h;
  commit_marked = λ s k h. h;
  commit_committed = λ s k h. commit_swap k s.marked s.committed h;
}

abbrev cluster_produces : (E : Type 0) → ProduceLaws (cluster E) (cluster_laws E)
cluster_produces E = record {
  Delivered = λ s o. Among o s.produced;
  produce_delivered = λ r s h. inl refl;
  produce_marked = λ r s k h. h;
  produce_committed = λ r s k h. h;
  poll_stays = λ s o h. h;
  produce_stays = λ r s o h. inr h;
  mark_stays = λ rs s o h. h;
  commit_stays = λ s o h. h;
}

abbrev change : KgoRecord
change = record {
  topic = "transformed.users";
  key = text;
  value = some text;
  headers = carried (inject (("traceparent", "00-1") ∷ []) (some []));
  partition = 0;
  offset = 4;
}

abbrev pub waiting : List KgoRecord → Cluster
waiting rs = record { queue = rs; marked = []; committed = []; produced = [] }

carrier_get-inject_example :
    carrier_get "traceparent" (record_of change).headers
    ≡ value_or (lookup "traceparent" (("traceparent", "00-1") ∷ [])) ""
unfolding lookup
carrier_get-inject_example =
    carrier_get-inject (("traceparent", "00-1") ∷ []) "traceparent" change (refl, tt) refl

abbrev clock : ℕ → ℕ
clock n = n

abbrev sink_start :
    Pipeline constant
      (franz_consumer (cluster DriverError))
      (instrumented_writer takes_all view clock)
sink_start = record { cons = waiting (change ∷ []); sink = instrumented }

change_committed :
    Among change
      (run_rounds constant
        (franz_consumer (cluster DriverError))
        (instrumented_writer takes_all view clock)
        1
        sink_start).cons.committed
unfolding run_rounds run_once mark_all decode_all decode is_tombstone trim_space int64 str_dec poll
    mark_commit commit_marked apply_batch
change_committed = inl refl

abbrev sink_end :
    Pipeline constant
      (franz_consumer (cluster DriverError))
      (instrumented_writer takes_all view clock)
sink_end =
    run_rounds constant (franz_consumer (cluster DriverError))
      (instrumented_writer takes_all view clock) 1 sink_start

run_rounds-Covers_example :
    FromRaw (λ k. Among k []) (record_of change)
    ⊎ ((r : KafkaRecord) × Upto (record_of change) r
        × In r (
            polls constant
              (franz_consumer (cluster DriverError))
              (instrumented_writer takes_all view clock)
              1
              sink_start
              [])
        × ((decode constant r.key r.value ≡ err tombstone)
            ⊎ ((ev : CdcEvent) × (decode constant r.key r.value ≡ ok ev)
                × Covers sink_end.sink.progress ev.lsn)))
run_rounds-Covers_example =
    run_rounds-Covers takes_all view clock constant (cluster DriverError) (cluster_laws DriverError)
      1 sink_start (λ k h. h) change change_committed

abbrev no_json : Json
no_json = record { unmarshal = λ b. none; marshal = λ m. none }

abbrev tombstone_of : ℕ → KgoRecord
tombstone_of n = record {
  topic = "cdc.users";
  key = [];
  value = none;
  headers = [];
  partition = 0;
  offset = n;
}

abbrev traced : Cluster → KgoRecord → Dict String
traced s r = ("traceparent", "00-1") ∷ []

abbrev is_context : String → Bool
is_context e = false

tombstone_committed :
    Among
      (tombstone_of 3)
      (main_loop no_json rules
        (cluster String)
        traced
        is_context
        (false ∷ true ∷ [])
        (waiting (tombstone_of 3 ∷ []))).committed
unfolding main_loop public_pg2mongo_cd_c.Transformer.run_once each_record on_record transform
tombstone_committed = inl refl

abbrev forwarder_end : Cluster
forwarder_end =
    main_loop no_json rules (cluster String) traced is_context (false ∷ true ∷ [])
      (waiting (tombstone_of 3 ∷ []))

main_loop-Passed_example :
    Among (tombstone_of 3) []
    ⊎ Passed no_json rules
        (cluster String)
        traced
        (cluster_laws String)
        (cluster_produces String)
        (forwarded_polls no_json rules
          (cluster String)
          traced
          is_context
          (false ∷ true ∷ [])
          []
          (waiting (tombstone_of 3 ∷ [])))
        forwarder_end
        (tombstone_of 3)
main_loop-Passed_example =
    main_loop-Passed no_json rules (cluster String) traced (cluster_laws String)
      (cluster_produces String) is_context (false ∷ true ∷ []) (waiting (tombstone_of 3 ∷ []))
      (λ k h. h) (tombstone_of 3) tombstone_committed
