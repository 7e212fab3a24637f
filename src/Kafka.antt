-- ===== src/Kafka.antt =====
-- services/sink/internal/kafka: franz-go behind the interface of the consume loop. The client of
-- franz-go is a parameter; the text that is put before a fetch error is left out.
pub mod Group
pub mod Headers
pub mod Drops
pub mod Progress
pub mod Options
use public_pg2mongo_cd_c.Base.{ℕ, Option, none, some, List, [], ◌∷◌, map}
use public_pg2mongo_cd_c.Kgo.{RecordHeader, KgoRecord, Fetches, Client}
use public_pg2mongo_cd_c.Consumer.{
  HeaderKv, KafkaRecord, PollResult, records, poll_error, KafkaConsumer,
}

abbrev pub header_of : RecordHeader → HeaderKv
header_of h = record { key = h.key; value = h.value }

-- A nil slice reads as an empty one.
abbrev pub bytes_of : Option (List ℕ) → List ℕ
bytes_of none = []
bytes_of (some b) = b

abbrev pub record_of : KgoRecord → KafkaRecord
record_of r = record {
  key = r.key;
  value = bytes_of r.value;
  offset = r.offset;
  partition = r.partition;
  topic = r.topic;
  headers = map header_of r.headers;
  raw = some r;
}

module _ {E : Type 0} (C : Client E) where
  abbrev pub after_errors : List E → List KgoRecord → PollResult E
  after_errors [] rs = records (map record_of rs)
  after_errors (e ∷ es) rs = poll_error e

  abbrev pub after_context : Option E → List E → List KgoRecord → PollResult E
  after_context (some e) es rs = poll_error e
  after_context none es rs = after_errors es rs

  abbrev pub result_of : Fetches E → PollResult E
  result_of f = after_context f.ctx_err f.errors f.recs

  unfoldable pub poll : C.State → C.State × PollResult E
  poll s = let r = C.poll_fetches s in (r.0, result_of r.1)

  abbrev pub mark_raw : Option KgoRecord → C.State → C.State
  mark_raw none s = s
  mark_raw (some raw) s = C.mark_commit_records (raw ∷ []) s

  unfoldable pub mark_commit : KafkaRecord → C.State → C.State
  mark_commit r s = mark_raw r.raw s

  unfoldable pub commit_marked : C.State → C.State × Option E
  commit_marked s = C.commit_marked_offsets s

  abbrev pub franz_consumer : KafkaConsumer E
  franz_consumer = record {
    State = C.State;
    poll = poll;
    mark_commit = mark_commit;
    commit_marked = commit_marked;
  }
