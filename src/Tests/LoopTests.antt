-- ===== src/Tests/LoopTests.antt =====
-- The decoder, the consume loop and the sink's outer loop at concrete records.
use public_pg2mongo_cd_c.Base.{In, In-left}
use public_pg2mongo_cd_c.Base.{
  ℕ, ◌+◌, String, true, false, Option, none, some, pos, ◌≡◌, refl, ◌↔◌, ◌⊎◌, inl, inr, arith,
}
use public_pg2mongo_cd_c.Base.{List, [], ◌∷◌, ◌++◌, All, str_dec}
use public_pg2mongo_cd_c.Value.{end}
use public_pg2mongo_cd_c.Writer.{CdcEvent}
use public_pg2mongo_cd_c.Writer.Server.{DriverError}
use public_pg2mongo_cd_c.Decoder.{
  ValueEnvelope, KeyEnvelope, Json, decode, ok, is_tombstone, event_of, trim_space,
}
use public_pg2mongo_cd_c.Decoder.Number.{int64, IsInt64}
use public_pg2mongo_cd_c.Decoder.Laws.{Origin, decode-Origin}
use public_pg2mongo_cd_c.Consumer.{
  KafkaRecord, KafkaConsumer, Writer, records, Pipeline, run_once, run_rounds, mark_all, decode_all,
  apply_failed,
}
use public_pg2mongo_cd_c.Consumer.Laws.{ClientLaws, WriterLaws}
use public_pg2mongo_cd_c.Consumer.Handled.{Handled}
use public_pg2mongo_cd_c.Consumer.Delivery.{IsSafe, polls, run_rounds-IsSafe}
use public_pg2mongo_cd_c.Consumer.Progress.{CommitLaws, run_once_commits}
use public_pg2mongo_cd_c.Sink.Backoff.{backoff_duration, backoff_duration-eq-min}
use public_pg2mongo_cd_c.Sink.Loop.{
  ran_ok, ran_failed, run_loop, initial, plain_error, RoundError, failures, state, doubled, step,
  fail, run_loop_streak,
}
use public_pg2mongo_cd_c.Sink.Instrument.{
  Metrics, Instrumented, Accounted, apply_batch, apply_batch-Accounted,
}
use public_pg2mongo_cd_c.Checkpoint.{new}

abbrev bare : ValueEnvelope
bare = record { before = none; after = some end; lsn = "42"; table = ""; ts_ms = ""; op = "" }

abbrev key_seven : KeyEnvelope
key_seven = record { id = "7" }

-- A parser that reads every text as the same envelope.
abbrev pub constant : Json
constant = record { value_envelope = λ b. some bare; key_envelope = λ b. some key_seven }

abbrev pub text : List ℕ
text = b'{' ∷ b'}' ∷ []

text_live : is_tombstone text ≡ false
unfolding is_tombstone trim_space
text_live = refl

forty_two : int64 "42" ≡ some (pos 42)
unfolding int64
forty_two = refl

abbrev decoded : CdcEvent
decoded = event_of bare key_seven (pos 42)

decodes : decode constant text text ≡ ok decoded
unfolding decode is_tombstone trim_space int64 str_dec
decodes = refl

decode-Origin_example :
    (decode constant text text ≡ ok decoded)
    ↔ (Origin constant text text decoded × IsInt64 decoded.lsn)
decode-Origin_example = decode-Origin constant text text decoded

record Broker : Type 0 where
  queue : List KafkaRecord
  marked : List KafkaRecord
  committed : List KafkaRecord

In-append : (x : KafkaRecord) (xs ys : List KafkaRecord) → In x (xs ++ ys) → In x ys ⊎ In x xs
In-append x [] ys h = inl h
In-append x (y ∷ xs) ys (inl e) = inr (inl e)
In-append x (y ∷ xs) ys (inr h) = elim (In-append x xs ys h) [ inl a ↦ inl a | inr b ↦ inr (inr b) ]

abbrev broker : KafkaConsumer String
broker = record {
  State = Broker;
  poll = λ s. (record s { queue = [] }, records s.queue);
  mark_commit = λ r s. record s { marked = r ∷ s.marked };
  commit_marked = λ s. (record s { committed = s.marked ++ s.committed }, none);
}

all_own : (rs : List KafkaRecord) → All (λ (x : KafkaRecord). Unit {0}) rs
all_own [] = tt
all_own (r ∷ rs) = (tt, all_own rs)

broker_laws : ClientLaws broker
broker_laws = record {
  Own = λ x. Unit;
  Marked = λ s x. In x s.marked;
  Committed = λ s x. In x s.committed;
  poll_own = λ s. all_own s.queue;
  poll_marked = λ s x h. h;
  poll_committed = λ s x h. h;
  mark_marked =
      λ r s x o h. elim h [ inl e ↦ inl (rw e (refl, refl, omega arith)) | inr old ↦ inr old ];
  mark_committed = λ r s x h. h;
  commit_marked = λ s x h. h;
  commit_committed = λ s x h. In-append x s.marked s.committed h;
}

abbrev sink : Writer String
sink = record { State = List CdcEvent; apply_batch = λ evs s. (evs ++ s, none) }

InEvents : CdcEvent → List CdcEvent → Type 0
InEvents x [] = ⊥
InEvents x (y ∷ ys) = (x ≡ y) ⊎ InEvents x ys

InEvents-left : (x : CdcEvent) (xs ys : List CdcEvent) → InEvents x xs → InEvents x (xs ++ ys)
unfolding InEvents
InEvents-left x [] ys h = absurd h
InEvents-left x (y ∷ xs) ys (inl e) = inl e
InEvents-left x (y ∷ xs) ys (inr h) = inr (InEvents-left x xs ys h)

InEvents-right : (x : CdcEvent) (xs ys : List CdcEvent) → InEvents x ys → InEvents x (xs ++ ys)
unfolding InEvents
InEvents-right x [] ys h = h
InEvents-right x (y ∷ xs) ys h = inr (InEvents-right x xs ys h)

All-InEvents :
    (evs all rest : List CdcEvent)
    → ((x : CdcEvent) → InEvents x evs → InEvents x all)
    → All (λ x. InEvents x (all ++ rest)) evs
unfolding InEvents
All-InEvents [] all rest h = tt
All-InEvents (ev ∷ evs) all rest h =
    (InEvents-left ev all rest (h ev (inl refl)), All-InEvents evs all rest (λ x k. h x (inr k)))

sink_laws : WriterLaws sink
sink_laws = record {
  Applied = λ s ev. InEvents ev s;
  applied_all = λ evs s h. All-InEvents evs evs s (λ x k. k);
  applied_stays = λ evs s ev h. InEvents-right ev evs s h;
}

abbrev message : ℕ → KafkaRecord
message n = record {
  key = text;
  value = text;
  offset = n;
  partition = 0;
  topic = "transformed.users";
  headers = [];
  raw = none;
}

abbrev at_start : Pipeline constant broker sink
at_start = record {
  cons = record { queue = message 1 ∷ message 2 ∷ []; marked = []; committed = [] };
  sink = [];
}

two_applied : (run_once constant broker sink at_start).0.sink ≡ decoded ∷ decoded ∷ []
unfolding run_once mark_all decode_all decode is_tombstone trim_space int64 str_dec
two_applied = refl

IsSafe-start : IsSafe constant broker sink broker_laws sink_laws (λ r. ⊥) [] at_start
unfolding broker_laws
IsSafe-start = record { marked = λ r h. absurd h; committed = λ r h. absurd h }

run_rounds-IsSafe_example :
    IsSafe constant broker sink broker_laws sink_laws
      (λ r. ⊥)
      (polls constant broker sink 2 at_start [])
      (run_rounds constant broker sink 2 at_start)
run_rounds-IsSafe_example =
    run_rounds-IsSafe constant broker sink broker_laws sink_laws (λ r. ⊥) 2 [] at_start IsSafe-start

no_error : (run_once constant broker sink at_start).1 ≡ none
unfolding run_once mark_all decode_all decode is_tombstone trim_space int64 str_dec
no_error = refl

broker_commits : CommitLaws broker broker_laws
unfolding broker_laws
broker_commits = record {
  mark_marks = λ r s o. inl refl;
  mark_keeps = λ r s x h. inr h;
  commit_commits = λ s x e h. In-left x s.marked s.committed h;
}

run_once_commits_example :
    All
      (Handled constant sink sink_laws (run_once constant broker sink at_start).0.sink)
      (message 1 ∷ message 2 ∷ [])
    × All
        (broker_laws.Committed (run_once constant broker sink at_start).0.cons)
        (message 1 ∷ message 2 ∷ [])
run_once_commits_example =
    run_once_commits constant broker sink broker_laws broker_commits sink_laws at_start no_error

-- A writer that is down.
abbrev down : Writer String
down = record { State = Unit; apply_batch = λ evs s. (s, some "down") }

abbrev at_start_down : Pipeline constant broker down
at_start_down = record { cons = at_start.cons; sink = tt }

failed_round : (run_once constant broker down at_start_down).1 ≡ some (apply_failed 2 "down")
unfolding run_once mark_all decode_all decode is_tombstone trim_space int64 str_dec
failed_round = refl

backoff_duration-eq-min_example : backoff_duration (pos 4) ≡ 4_000_000_000
backoff_duration-eq-min_example = backoff_duration-eq-min 3

still_running : (run_loop (ran_failed plain_error false ∷ []) initial).returned ≡ false
unfolding run_loop step fail
still_running = refl

run_loop_streak_example :
    run_loop (ran_failed plain_error false ∷ ran_ok ∷ failures 2) initial
    ≡ state 2 ((run_loop (ran_failed plain_error false ∷ []) initial).delays ++ doubled 0 2)
run_loop_streak_example = run_loop_streak (ran_failed plain_error false ∷ []) 2 still_running

abbrev timed_out : RoundError
timed_out = record { canceled = false; deadline_exceeded = true }

abbrev broken : DriverError
broken = record {
  canceled = false;
  deadline_exceeded = false;
  net_error = some true;
  bulk = none;
  server_error = none;
}

abbrev no_metrics : Metrics
no_metrics = record { write_errors = []; events_processed = []; replication_lag = [] }

abbrev pub takes_all : List CdcEvent → ℕ → ℕ × Option DriverError
takes_all evs n = (n + 1, none)

abbrev pub view : DriverError → DriverError
view e = e

abbrev pub instrumented : Instrumented takes_all view
instrumented = record { sink = 0; metrics = no_metrics; progress = some (new 0) }

apply_batch-Accounted_example :
    let r = apply_batch takes_all view 9 (decoded ∷ []) instrumented in
    Accounted view (decoded ∷ []) no_metrics (new 0) r.0.progress r.0.metrics r.1
apply_batch-Accounted_example =
    apply_batch-Accounted takes_all view 9 (decoded ∷ []) instrumented (new 0) refl
      (unfold new in omega arith)
