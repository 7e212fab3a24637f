-- ===== src/Tests/ToolTests.antt =====
-- The dead-letter tool, the lag probe's loop and the load generator at concrete inputs.
use public_pg2mongo_cd_c.Base.{
  ℕ, ◌+◌, ◌*◌, ◌<◌, String, ◌<>◌, true, false, Option, none, some, ℤ, pos, pos_part, ◌≡◌, ◌↔◌, refl,
  arith, List, [], ◌∷◌, str_dec, eqb, if◌then◌else◌, ◌==◌,
}
use public_pg2mongo_cd_c.Kgo.{KgoRecord}
use public_pg2mongo_cd_c.Dlqtool.{
  Poll, Flags, Tally, scan, start, header_source_topic, header_error_reason,
}
use public_pg2mongo_cd_c.Dlqtool.Ends.{Ended, scan_ends}
use public_pg2mongo_cd_c.Dlqtool.Offsets.{
  Offsets, at, total_lag, add_lags, between, offsets, total_lag-eq-between,
}
use public_pg2mongo_cd_c.Dlqtool.Sort.{IsDescending, total}
use public_pg2mongo_cd_c.Dlqtool.Main.{Exit, main, main_reports}
use public_pg2mongo_cd_c.Lag.{Probe}
use public_pg2mongo_cd_c.Loadgen.{Result, ok, fail, write_header, update_random}
use public_pg2mongo_cd_c.Loadgen.Db.{
  Query, Pool, db_store, delete_first, update_sampled, update_first, insert_or_update,
}
use public_pg2mongo_cd_c.Loadgen.Answers.{update_random_unsampled}

abbrev letter : String → KgoRecord
letter topic = record {
  topic = "dlq.sink";
  key = [];
  value = none;
  headers =
      record { key = header_source_topic; value = topic }
      ∷ record { key = header_error_reason; value = "bad" }
      ∷ [];
  partition = 0;
  offset = 0;
}

-- A producer that keeps what it is given, but for one topic.
abbrev producer : KgoRecord → List String → List String × Option String
producer r s = if r.topic == "gone" then (s, some "unknown topic") else (r.topic ∷ s, none)

abbrev letters : ℕ → Poll
letters i = record {
  ended = false;
  records = if eqb i 0 then letter "cdc.users" ∷ letter "gone" ∷ letter "cdc.orders" ∷ [] else [];
}

abbrev replaying : Flags
replaying = record { replay = true; max_recs = pos 2 }

scan_ends_example :
    (t' : Tally producer) × (scan producer 11 replaying (pos 4) letters 0 (start producer [])
      ≡ some t')
    × Ended producer replaying (pos 4) letters 0 (start producer []) t'
scan_ends_example = scan_ends producer replaying (pos 4) letters []

abbrev firsts : Offsets
firsts = (0, pos 5) ∷ (1, pos 0) ∷ []

abbrev lasts : Offsets
lasts = (0, pos 7) ∷ (1, pos 1) ∷ []

lag_three : total_lag firsts lasts ≡ pos 3
unfolding total_lag add_lags at
lag_three = refl

total_lag-eq-between_example : total_lag firsts lasts ≡ pos (between firsts lasts)
unfolding at
total_lag-eq-between_example =
    total_lag-eq-between firsts lasts
      ((omega arith, omega arith, omega arith), ((omega arith, omega arith, omega arith), tt))
      (omega arith)

main_reports_example :
    (x : Exit producer) × (main producer
        (2 * pos_part (total_lag firsts lasts) + 3)
        "dlq.sink"
        replaying
        letters
        (offsets firsts lasts true)
        none
        none
        []
      ≡ some x)
    × Ended producer replaying (total_lag firsts lasts) letters 0 (start producer []) x.tally
    × IsDescending x.by_reason
    × (total x.by_reason ≡ x.tally.processed)
    × ((x.code ≡ 1) ↔ ((replaying.replay ≡ true) × (0 < x.tally.replay_failed)))
unfolding str_dec total_lag add_lags at
main_reports_example = main_reports producer "dlq.sink" replaying letters firsts lasts [] refl refl

abbrev quiet : Probe
quiet = record {
  group_id = "zdt-sink";
  interval = pos 1;
  probe_to = pos 1;
  total_lag = pos 0;
  last_probe_at = 0;
}

-- A table of ids whose sample is always empty.
abbrev answer : Query → List ℤ → List ℤ × Result String ℤ
answer (insert_or_update e n p) ids = (ids, ok (pos 1))
answer (update_sampled n) ids = (ids, fail "no rows in result set")
answer (update_first n) [] = ([], fail "no rows in result set")
answer (update_first n) (i ∷ ids) = (i ∷ ids, ok i)
answer delete_first [] = ([], fail "no rows in result set")
answer delete_first (i ∷ ids) = (ids, ok i)

abbrev pool : Pool String
pool = record { State = List ℤ; query_row = answer }

abbrev text_of : String → String
text_of e = e

abbrev no_profile : Unit {0} → Result String String
no_profile u = ok ""

-- The table has a row, and the answer is 204.
unsampled :
    update_random text_of (db_store text_of (λ a b. a <> b) no_profile pool) (ok "ada") (pos 1 ∷ [])
    ≡ (pos 1 ∷ [], write_header 204)
unfolding str_dec
unsampled =
    update_random_unsampled text_of (λ a b. a <> b) no_profile pool "ada" (pos 1 ∷ [])
      "no rows in result set" refl refl

abbrev plain : KgoRecord
plain = record (letter "cdc.users") { headers = [] }

abbrev plain_letters : ℕ → Poll
plain_letters i = record { ended = false; records = plain ∷ [] }
