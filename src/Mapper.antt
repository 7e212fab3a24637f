-- ===== src/Mapper.antt =====
-- services/transformer/internal/mapper: the rules that rename the fields of an envelope.
-- encoding/json is a parameter; a directory is its list of files, read and parsed.
pub mod Text
pub mod Rename
pub mod Rules
use public_pg2mongo_cd_c.Base.{
  ℕ, String, ◌<>◌, Bool, true, false, Option, none, some, ◌&&◌, ◌||◌, not,
}
use public_pg2mongo_cd_c.Base.{List, [], ◌∷◌, ◌==◌, if◌then◌else◌, Dict, lookup, insert}
use public_pg2mongo_cd_c.Value.{Value, str, obj, Fields, end, field, get, put}
use public_pg2mongo_cd_c.Mapper.Text.{after_last_dot, has_suffix}

pub record FieldRule : Type 0 where
  pub type_hint : String
  pub target : String

pub record Rule : Type 0 where
  pub source : String
  pub target : String
  pub fields : Dict FieldRule

-- `byQName`; a range over it visits the rules in the list's order.
pub record Mapper : Type 0 where
  pub by_q_name : Dict Rule

-- A field's new name.
abbrev named : String → Option FieldRule → String
named k none = k
named k (some r) = if r.target == "" then k else r.target

unfoldable pub target_of : Dict FieldRule → String → String
target_of fields k = named k (lookup k fields)

unfoldable pub rename_into : Dict FieldRule → Fields → Fields → Fields
rename_into fields end out = out
rename_into fields (field k v src) out = rename_into fields src (put (target_of fields k) v out)

unfoldable pub rename_keys : Fields → Dict FieldRule → Fields
rename_keys src fields = rename_into fields src end

-- `m, _ := v.(map[string]any)` and the same for a text.
abbrev pub as_map : Option Value → Option Fields
as_map (some (obj m)) = some m
as_map _ = none

abbrev pub as_text : Option Value → String
as_text (some (str s)) = s
as_text _ = ""

abbrev pub or_else {ℓ} : {A : Type ℓ} → Option A → Option A → Option A
or_else (some a) b = some a
or_else none b = b

-- The scan of the last resort.
unfoldable pub scan : String → Dict Rule → Option Rule
scan suffix [] = none
scan suffix ((k, r) ∷ rules) = if has_suffix k suffix then some r else scan suffix rules

abbrev pub tail_of : String → String
tail_of topic = elim (after_last_dot topic) [ some tail ↦ tail | none ↦ topic ]

unfoldable pub lookup_by_topic_tail : Mapper → String → Option Rule
lookup_by_topic_tail m topic =
    if topic == ""
    then none
    else or_else (lookup (tail_of topic) m.by_q_name) (scan ("." <> tail_of topic) m.by_q_name)

abbrev pub by_source : Mapper → String → String → Option Rule
by_source m schema table =
    if table == ""
    then none
    else or_else (if schema == "" then none else lookup (schema <> "." <> table) m.by_q_name)
        (lookup table m.by_q_name)

abbrev by_fields : Mapper → Option Fields → Option Rule
by_fields m none = none
by_fields m (some src) = by_source m (as_text (get "schema" src)) (as_text (get "table" src))

unfoldable pub lookup_for_payload : Mapper → Fields → String → Option Rule
lookup_for_payload m payload topic =
    or_else (by_fields m (as_map (get "source" payload))) (lookup_by_topic_tail m topic)

-- One of the two row images, renamed where it is a map.
abbrev pub rewrite_image : String → Rule → Option Fields → Fields → Fields
rewrite_image k rule none payload = payload
rewrite_image k rule (some image) payload = put k (obj (rename_keys image rule.fields)) payload

unfoldable pub rewrite : Rule → Fields → Fields
rewrite rule payload =
    let p = rewrite_image "after" rule (as_map (get "after" payload)) payload in
    rewrite_image "before" rule (as_map (get "before" p)) p

-- `json.Unmarshal` into a map and `json.Marshal`; `none` is an error.
pub record Json : Type 0 where
  pub unmarshal : List ℕ → Option Fields
  pub marshal : Fields → Option (List ℕ)

pub data Applied : Type 0 where
  applied : List ℕ → Applied
  parse_error marshal_error : Applied

abbrev marshalled : Option (List ℕ) → Applied
marshalled (some b) = applied b
marshalled none = marshal_error

abbrev apply_rule : Json → List ℕ → Fields → Fields → Option Rule → Applied
apply_rule json envelope env payload none = applied envelope
apply_rule json envelope env payload (some rule) =
    marshalled (json.marshal (put "payload" (obj (rewrite rule payload)) env))

abbrev apply_payload : Json → Mapper → String → List ℕ → Fields → Option Fields → Applied
apply_payload json m topic envelope env none = applied envelope
apply_payload json m topic envelope env (some payload) =
    apply_rule json envelope env payload (lookup_for_payload m payload topic)

abbrev unparsed : List ℕ → Option Rule → Applied
unparsed envelope (some _) = parse_error
unparsed envelope none = applied envelope

abbrev apply_env : Json → Mapper → String → List ℕ → Option Fields → Applied
apply_env json m topic envelope none = unparsed envelope (lookup_by_topic_tail m topic)
apply_env json m topic envelope (some env) =
    apply_payload json m topic envelope env (as_map (get "payload" env))

unfoldable pub apply_json : Json → Mapper → String → List ℕ → Applied
apply_json json m topic envelope = apply_env json m topic envelope (json.unmarshal envelope)

-- A directory's entry: its file is read and parsed, `none` where that fails.
pub record Entry : Type 0 where
  pub name : String
  pub is_dir : Bool
  pub file : Option (List ℕ)

pub data LoadError : Type 0 where
  read_error bad_yaml empty_source duplicate : String → LoadError

pub data Loaded : Type 0 where
  loaded : Mapper → Loaded
  failed : LoadError → Loaded

-- `yaml.Unmarshal` into a rule, and `strings.TrimSpace`.
pub record Yaml : Type 0 where
  pub unmarshal : List ℕ → Option Rule
  pub trim_space : String → String

abbrev pub is_rule_file : Entry → Bool
is_rule_file e = not e.is_dir && has_suffix e.name ".yml"

abbrev add_rule : Yaml → String → Rule → Mapper → Loaded
add_rule yaml path rule m =
    let key = yaml.trim_space rule.source in
    if key == "" then failed (empty_source path) else elim (lookup key m.by_q_name) [
      | some _ ↦ failed (duplicate key)
      | none ↦ loaded (record m { by_q_name = insert key rule m.by_q_name })
    ]

abbrev parsed : Yaml → String → Option Rule → Mapper → Loaded
parsed yaml path none m = failed (bad_yaml path)
parsed yaml path (some rule) m = add_rule yaml path rule m

abbrev pub load_file : Yaml → String → Option (List ℕ) → Mapper → Loaded
load_file yaml path none m = failed (read_error path)
load_file yaml path (some b) m = parsed yaml path (yaml.unmarshal b) m

abbrev pub load_entry : Yaml → Entry → Mapper → Loaded
load_entry yaml e m = if is_rule_file e then load_file yaml e.name e.file m else loaded m

abbrev pub and_then : Loaded → (Mapper → Loaded) → Loaded
and_then (failed e) f = failed e
and_then (loaded m) f = f m

unfoldable pub load_entries : Yaml → List Entry → Mapper → Loaded
load_entries yaml [] m = loaded m
load_entries yaml (e ∷ es) m = and_then (load_entry yaml e m) (load_entries yaml es)

-- `Load`; `none` is a directory that cannot be read.
unfoldable pub load : Yaml → String → Option (List Entry) → Loaded
load yaml dir none = failed (read_error dir)
load yaml dir (some es) = load_entries yaml es (record { by_q_name = [] })
