-- ===== src/Tests/TransformerTests.antt =====
-- The checkpoint, the mapper, the transformer and the lag probe at concrete inputs.
use public_pg2mongo_cd_c.Base.{
  ℕ, ◌+◌, ◌*◌, ◌<◌, String, false, none, some, pos, negsuc, ◌<ℤ◌, ◌≡◌, refl, arith, ◌||◌, ◌==◌,
  if◌then◌else◌,
}
use public_pg2mongo_cd_c.Base.{List, [], ◌∷◌, str_dec, lookup, insert, inl, inr}
use public_pg2mongo_cd_c.Value.{str, int, obj, Fields, end, field, get, put}
use public_pg2mongo_cd_c.Checkpoint.{Snapshot, snapshot, Runner, run, started, new, mark_progress}
use public_pg2mongo_cd_c.Checkpoint.Ticks.{quiet, run-quiet}
use public_pg2mongo_cd_c.Checkpoint.Flush.{
  Machine, Reach, here, next, mark, send, ack, marks_of, IsSound, initial, Reach-IsSound,
  overlapped_mark,
}
use public_pg2mongo_cd_c.Mapper.{
  Rule, Mapper, Json, Yaml, Entry, loaded, load, load_entries, rename_keys, rename_into, target_of,
  rewrite, as_map, lookup_for_payload,
}
use public_pg2mongo_cd_c.Mapper.Text.{has_suffix}
use public_pg2mongo_cd_c.Mapper.Rename.{IsInjective, get-rename_keys, get-rewrite, image}
use public_pg2mongo_cd_c.Mapper.Rules.{
  IsIndexed, load-IsIndexed, From, lookup_for_payload_qualified,
}
use public_pg2mongo_cd_c.Base.{Dict}
use public_pg2mongo_cd_c.Kgo.{KgoRecord, fetched, Client}
use public_pg2mongo_cd_c.Transformer.{run_once, Progress, transform, commit, each_record, on_record}
use public_pg2mongo_cd_c.Transformer.Round.{IsRun, run_once-IsRun}
use public_pg2mongo_cd_c.Lag.{GroupLag, Probe, groups, probe}
use public_pg2mongo_cd_c.Lag.{Answer}
use public_pg2mongo_cd_c.Lag.Total.{Shows, known, error_of, probe-Shows}

run-quiet_example :
    let s = run 6 (quiet 20) started in
    (s.tried * 6 + s.idle_ticks ≡ 20) × (s.idle_ticks < 6) × (s.returned ≡ false)
run-quiet_example = run-quiet 6 20 started (omega arith) (omega arith) refl

abbrev near : Runner
near = record started { idle_ticks = 5 }

abbrev marked : Machine
marked = record { progress = mark_progress (pos 9) (pos 2) (new 0); pending = none; stored = none }

-- The document that an earlier run left.
abbrev left : Snapshot
left = snapshot 0 (mark_progress (pos 7) (pos 1) (new 0))

abbrev sent : Machine
sent = record {
  progress = mark_progress (pos 9) (pos 2) (new 0);
  pending = none;
  stored = some left;
}

flushing : (n : Machine) × Reach (initial 0 (some left)) n
unfolding initial
flushing = (
  _,
  next (next (next (next here (mark (pos 9) (pos 2))) (send 1 refl)) (mark (pos 12) (pos 1)))
      (ack (snapshot 1 sent.progress) refl),
)

Reach-IsSound_example : IsSound (some left) (marks_of flushing.1) flushing.0
Reach-IsSound_example = Reach-IsSound 0 (some left) flushing.1

overlapped_mark_example :
    (n : Machine) × (s : _) × Reach marked n
    × (n.progress.dirty ≡ false)
    × (n.stored ≡ some s)
    × (s.last_lsn <ℤ n.progress.max_lsn)
overlapped_mark_example =
    overlapped_mark marked 5 (pos 12) refl (omega arith) (unfold mark_progress new in omega arith)

abbrev pub users : Rule
users = record {
  source = "public.users";
  target = "users";
  fields = ("user_name", record { type_hint = ""; target = "userName" }) ∷ [];
}

abbrev row : Fields
row = field "id" (int (pos 7)) (field "user_name" (str "ada") end)

row-IsInjective : IsInjective users.fields row
unfolding target_of lookup str_dec
row-IsInjective =
    ((λ j h. elim h [ inl e ↦ rw e (λ k. cc) | inr n ↦ absurd n ]), ((λ j h. absurd h), tt))

get-rename_keys_example :
    get (target_of users.fields "user_name") (rename_keys row users.fields) ≡ some (str "ada")
get-rename_keys_example =
    get-rename_keys users.fields row "user_name" (str "ada") row-IsInjective
      (unfold get str_dec in refl)

renamed : rename_keys row users.fields ≡ field "id" (int (pos 7)) (field "userName" (str "ada") end)
unfolding rename_keys rename_into target_of lookup put str_dec
renamed = refl

abbrev block : Fields
block = field "schema" (str "audit") (field "table" (str "users") end)

abbrev payload : Fields
payload = field "after" (obj row) (field "source" (obj block) end)

get-rewrite_example : get "after" (rewrite users payload) ≡ (
    if "after" == "before" || "after" == "after"
    then image users (as_map (get "after" payload)) (get "after" payload)
    else get "after" payload)
get-rewrite_example = get-rewrite "after" users payload

-- A parser of rules that reads one rule in every file, and trims nothing.
abbrev pub yaml : Yaml
yaml = record { unmarshal = λ b. some users; trim_space = λ s. s }

abbrev pub entries : List Entry
entries =
    record { name = "users.yml"; is_dir = false; file = some [] }
    ∷ record { name = "README.md"; is_dir = false; file = none }
    ∷ []

abbrev pub rules : Mapper
rules = record { by_q_name = ("public.users", users) ∷ [] }

rules_loaded : load yaml "rules" (some entries) ≡ loaded rules
unfolding load load_entries has_suffix lookup insert str_dec
rules_loaded = refl

load-IsIndexed_example : IsIndexed yaml 1 rules
unfolding has_suffix str_dec
load-IsIndexed_example = load-IsIndexed yaml "rules" entries rules rules_loaded

abbrev public_block : Fields
public_block = field "schema" (str "public") (field "table" (str "users") end)

abbrev public_payload : Fields
public_payload = field "source" (obj public_block) end

From-public : From public_payload "public" "users"
unfolding get str_dec
From-public = record {
  block = public_block;
  source = refl;
  schema_is = refl;
  table_is = refl;
  schema_given = refl;
  table_given = refl;
}

lookup_for_payload_qualified_example :
    (lookup_for_payload rules public_payload "cdc.orders" ≡ some users)
    × (yaml.trim_space users.source ≡ "public.users")
lookup_for_payload_qualified_example =
    lookup_for_payload_qualified yaml "rules" entries rules rules_loaded public_payload "public"
      "users" "cdc.orders" users From-public (unfold lookup str_dec in refl)

From-audit : From payload "audit" "users"
unfolding get str_dec
From-audit = record {
  block = block;
  source = refl;
  schema_is = refl;
  table_is = refl;
  schema_given = refl;
  table_given = refl;
}

abbrev note : ℕ → KgoRecord
note n = record {
  topic = "cdc.users";
  key = [];
  value = none;
  headers = [];
  partition = 0;
  offset = n;
}

-- A broker that takes one record and refuses the second.
abbrev full : Client String
full = record {
  State = List KgoRecord;
  poll_fetches = λ s. (s, fetched (note 1 ∷ note 2 ∷ []));
  produce_sync = λ o s. elim s [ [] ↦ (o ∷ [], none) | o' ∷ os ↦ (o' ∷ os, some "full") ];
  mark_commit_records = λ rs s. s;
  commit_marked_offsets = λ s. (s, none);
}

abbrev traced : List KgoRecord → KgoRecord → Dict String
traced s r = ("traceparent", "00-1") ∷ []

abbrev no_json : Json
no_json = record { unmarshal = λ b. none; marshal = λ m. none }

one_committed :
    (each_record no_json rules full traced
      (note 1 ∷ note 2 ∷ [])
      (record { client = []; first_err = none; committable = [] })).committable
    ≡ note 1 ∷ []
unfolding each_record on_record transform
one_committed = refl

run_once-IsRun_example :
    (p : Progress no_json rules full traced) × IsRun no_json rules full traced
      (note 1 ∷ note 2 ∷ [])
      []
      p
    × (run_once no_json rules full traced [] ≡ commit no_json rules full traced p.committable p)
run_once-IsRun_example = run_once-IsRun no_json rules full traced [] [] (note 1 ∷ note 2 ∷ []) refl

abbrev group : GroupLag String
group = record {
  fetch_err = none;
  describe_err = none;
  lag = (pos 3 ∷ negsuc 0 ∷ []) ∷ (pos 4 ∷ []) ∷ [];
}

abbrev idle : Probe
idle = record {
  group_id = "zdt-sink";
  interval = pos 1;
  probe_to = pos 1;
  total_lag = pos 0;
  last_probe_at = 0;
}

abbrev answer : Answer String
answer = groups (("zdt-sink", group) ∷ [])

probe-Shows_example :
    let r = probe 50 answer idle in
    (r.1 ≡ error_of answer "zdt-sink") × Shows 50 (known answer "zdt-sink") idle r.0 r.1
probe-Shows_example = probe-Shows 50 answer idle (unfold lookup str_dec in omega arith)
