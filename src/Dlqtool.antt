-- ===== src/Dlqtool.antt =====
-- services/sink/cmd/dlqtool: the scan of a dead-letter topic, the replay and the exit codes. The two
-- clients of franz-go are parameters; logging and printing are left out. A Go string is its bytes,
-- one character for each, and a count of records is a number without a bound.
pub mod Offsets
pub mod Sort
pub mod Accounts
pub mod Scan
pub mod Rounds
pub mod Ends
pub mod Limits
pub mod Main
pub mod Unsourced
use Prim.Native.String.{String}
use public_pg2mongo_cd_c.Base.{ℕ, zero, suc, ◌+◌, ◌<>◌, Bool, true, false, Option, none, some, ◌&&◌}
use public_pg2mongo_cd_c.Base.{
  List, [], ◌∷◌, leb, ltb, eqb, ◌==◌, if◌then◌else◌, Dict, lookup, insert, length, ℤ, pos, leb_ℤ,
  ltb_ℤ,
}
use public_pg2mongo_cd_c.Kgo.{RecordHeader, KgoRecord}

abbrev pub header_source_topic : String
header_source_topic = "__dlq_source_topic"

abbrev pub header_error_reason : String
header_error_reason = "__dlq_error_reason"

unfoldable pub find_header : List RecordHeader → String → String
find_header [] name = ""
find_header (h ∷ hs) name = if h.key == name then h.value else find_header hs name

abbrev pub header_string : KgoRecord → String → String
header_string r name = find_header r.headers name

-- `len(s)` and `s[:n]`
unfoldable pub size : String → ℕ
size String.[] = 0
size (String.◌∷◌ c s) = suc (size s)

unfoldable pub take_bytes : ℕ → String → String
take_bytes zero s = ""
take_bytes (suc n) String.[] = ""
take_bytes (suc n) (String.◌∷◌ c s) = String.◌∷◌ c (take_bytes n s)

unfoldable pub truncate : String → ℕ → String
truncate s n = if leb (size s) n then s else take_bytes n s <> "..."

-- `m[k]` of a map of counts, and `m[k]++`.
abbrev pub count_or_zero : Option ℕ → ℕ
count_or_zero none = 0
count_or_zero (some n) = n

abbrev pub count_of : Dict ℕ → String → ℕ
count_of m k = count_or_zero (lookup k m)

unfoldable pub bump : String → Dict ℕ → Dict ℕ
bump k m = insert k (count_of m k + 1) m

-- A poll: whether the run's context had ended after it, and its records. Fetch errors are logged
-- and stop nothing.
pub record Poll : Type 0 where
  pub ended : Bool
  pub records : List KgoRecord

pub record Flags : Type 0 where
  pub replay : Bool
  pub max_recs : ℤ

-- The record that a replay publishes: the headers are not kept.
abbrev pub out_record : KgoRecord → KgoRecord
out_record r = record {
  topic = header_string r header_source_topic;
  key = r.key;
  value = r.value;
  headers = [];
  partition = 0;
  offset = 0;
}

module _ {S : Type 0} {E : Type 0} (produce_sync : KgoRecord → S → S × Option E) where
  -- The variables of `main` that the scan changes, and the producer.
  pub record Tally : Type 0 where
    pub reasons : Dict ℕ
    pub by_source_topic : Dict ℕ
    pub processed : ℕ
    pub replayed : ℕ
    pub replay_failed : ℕ
    pub empty_polls : ℕ
    pub producer : S

  abbrev pub counted : KgoRecord → Tally → Tally
  counted r t =
      let src = header_string r header_source_topic in
      record t {
        processed = t.processed + 1;
        reasons = bump (truncate (header_string r header_error_reason) 80) t.reasons;
        by_source_topic = if src == "" then t.by_source_topic else bump src t.by_source_topic;
      }

  abbrev pub after_produce : Tally → S × Option E → Tally
  after_produce t (s, some e) = record t { producer = s; replay_failed = t.replay_failed + 1 }
  after_produce t (s, none) = record t { producer = s; replayed = t.replayed + 1 }

  abbrev pub replay_record : KgoRecord → Tally → Tally
  replay_record r t =
      if header_string r header_source_topic == ""
      then record t { replay_failed = t.replay_failed + 1 }
      else after_produce t (produce_sync (out_record r) t.producer)

  unfoldable pub on_record : Bool → KgoRecord → Tally → Tally
  on_record replay r t = if replay then replay_record r (counted r t) else counted r t

  unfoldable pub each_record : Bool → List KgoRecord → Tally → Tally
  each_record replay [] t = t
  each_record replay (r ∷ rs) t = each_record replay rs (on_record replay r t)

  -- The `switch` at the end of a round: whether the scan is over.
  abbrev pub after_empty : Tally → Tally × Bool
  after_empty t = (record t { empty_polls = t.empty_polls + 1 }, leb 2 (t.empty_polls + 1))

  unfoldable pub decide : Flags → ℤ → ℕ → Tally → Tally × Bool
  decide flags target got t =
      if ltb_ℤ (pos 0) flags.max_recs && leb_ℤ flags.max_recs (pos t.processed)
      then (t, true)
      else if leb_ℤ target (pos t.processed)
      then (t, true)
      else if eqb got 0
      then after_empty t
      else (record t { empty_polls = 0 }, false)

  abbrev pub round : Flags → ℤ → Poll → Tally → Tally × Bool
  round flags target poll t =
      if poll.ended
      then (t, true)
      else decide flags target (length poll.records) (each_record flags.replay poll.records t)

  -- `polls i` is what the i-th poll returns; `none` is out of fuel.
  unfoldable pub scan : ℕ → Flags → ℤ → (ℕ → Poll) → ℕ → Tally → Option Tally
  scan zero flags target polls i t = none
  scan (suc fuel) flags target polls i t =
      let r = round flags target (polls i) t in
      let rest = scan fuel flags target polls (i + 1) r.0 in if r.1 then some r.0 else rest

  abbrev pub start : S → Tally
  start s = record {
    reasons = [];
    by_source_topic = [];
    processed = 0;
    replayed = 0;
    replay_failed = 0;
    empty_polls = 0;
    producer = s;
  }
