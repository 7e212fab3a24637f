-- ===== src/Mapper/Rules.antt =====
-- `Load` and the two lookups: which rule a record meets.
use mathlib.Core.Path.{subst, ap}
use public_pg2mongo_cd_c.Base.{
  ℕ, suc, ◌+◌, String, ◌<>◌, true, false, Option, none, some, ◌≡◌, refl, ◌∙◌, arith, sym,
}
use public_pg2mongo_cd_c.Base.{
  List, [], ◌∷◌, length, filter, ◌==◌, ==→eq, Dict, lookup, insert, NodupKeys, insert-NodupKeys,
  inl, inr, Bool-cases, Option-cases,
}
use public_pg2mongo_cd_c.Value.{Fields, get}
use public_pg2mongo_cd_c.Mapper.{
  Rule, Mapper, Entry, Yaml, Loaded, loaded, failed, load, load_entries, load_file, and_then,
  is_rule_file, add_rule, parsed,
}
use public_pg2mongo_cd_c.Mapper.{
  lookup_for_payload, lookup_by_topic_tail, scan, tail_of, or_else, as_map, as_text,
}
use public_pg2mongo_cd_c.Mapper.Text.{has_suffix}

-- Each rule stands under its own source, trimmed and not empty.
abbrev pub UnderSource : (String → String) → Dict Rule → Type 0
UnderSource trim [] = Unit
UnderSource trim ((k, r) ∷ d) = (k ≡ trim r.source) × ((k == "") ≡ false) × UnderSource trim d

pub record IsIndexed (yaml : Yaml) (n : ℕ) (m : Mapper) : Type 0 where
  pub nodup : NodupKeys m.by_q_name
  pub under : UnderSource yaml.trim_space m.by_q_name
  pub size : length m.by_q_name ≡ n

insert-UnderSource :
    (trim : String → String) (r : Rule) (d : Dict Rule)
    → (trim r.source == "") ≡ false
    → UnderSource trim d
    → UnderSource trim (insert (trim r.source) r d)
unfolding insert
insert-UnderSource trim r [] h u = (refl, h, tt)
insert-UnderSource trim r ((k, q) ∷ d) h u = elim (Bool-cases (trim r.source == k)) [
  | inl e ↦ rw e (refl, h, u.2)
  | inr e ↦ rw e (u.0, u.1, insert-UnderSource trim r d h u.2)
]

insert-length :
    (k : String) (r : Rule) (d : Dict Rule)
    → lookup k d ≡ none
    → length (insert k r d) ≡ length d + 1
unfolding insert lookup
insert-length k r [] h = refl
insert-length k r ((j, q) ∷ d) h = elim (Bool-cases (k == j)) [
  | inl e ↦ ground (arith, e, h)
  | inr e ↦ rw e (omega (arith, insert-length k r d (ground (arith, e, h))))
]

-- What is so of the mapper, if there is one.
abbrev IfLoaded : (Mapper → Type 0) → Loaded → Type 0
IfLoaded P (failed e) = Unit
IfLoaded P (loaded m) = P m

add_rule-IsIndexed :
    (yaml : Yaml) (path : String) (r : Rule) (n : ℕ) (m : Mapper)
    → IsIndexed yaml n m
    → IfLoaded (IsIndexed yaml (n + 1)) (add_rule yaml path r m)
add_rule-IsIndexed yaml path r n m h = elim (Bool-cases (yaml.trim_space r.source == "")) [
  | inl e ↦ rw e tt
  | inr e ↦ rw e (elim (Option-cases (lookup (yaml.trim_space r.source) m.by_q_name)) [
    | inl k ↦ rw k (record {
      nodup = insert-NodupKeys (yaml.trim_space r.source) r m.by_q_name h.nodup;
      under = insert-UnderSource yaml.trim_space r m.by_q_name e h.under;
      size = omega (arith, insert-length (yaml.trim_space r.source) r m.by_q_name k, h.size);
    })
    | inr (q, k) ↦ rw k tt
  ])
]

parsed-IsIndexed :
    (yaml : Yaml) (path : String) (o : Option Rule) (n : ℕ) (m : Mapper)
    → IsIndexed yaml n m
    → IfLoaded (IsIndexed yaml (n + 1)) (parsed yaml path o m)
parsed-IsIndexed yaml path none n m h = tt
parsed-IsIndexed yaml path (some r) n m h = add_rule-IsIndexed yaml path r n m h

load_file-IsIndexed :
    (yaml : Yaml) (path : String) (o : Option (List ℕ)) (n : ℕ) (m : Mapper)
    → IsIndexed yaml n m
    → IfLoaded (IsIndexed yaml (n + 1)) (load_file yaml path o m)
load_file-IsIndexed yaml path none n m h = tt
load_file-IsIndexed yaml path (some b) n m h = parsed-IsIndexed yaml path (yaml.unmarshal b) n m h

abbrev pub rule_files : List Entry → ℕ
rule_files es = length (filter is_rule_file es)

and_then-IfLoaded :
    (P Q : Mapper → Type 0) (l : Loaded) (f : Mapper → Loaded)
    → IfLoaded P l
    → ((m : Mapper) → P m → IfLoaded Q (f m))
    → IfLoaded Q (and_then l f)
and_then-IfLoaded P Q (failed e) f h g = tt
and_then-IfLoaded P Q (loaded m) f h g = g m h

load_entries-IsIndexed :
    (yaml : Yaml) (es : List Entry) (n : ℕ) (m : Mapper)
    → IsIndexed yaml n m
    → IfLoaded (IsIndexed yaml (n + rule_files es)) (load_entries yaml es m)
unfolding load_entries
load_entries-IsIndexed yaml [] n m h = record {
  nodup = h.nodup;
  under = h.under;
  size = omega (arith, h.size);
}
load_entries-IsIndexed yaml (e ∷ es) n m h = elim (Bool-cases (is_rule_file e)) [
  | inl k ↦ rw k (
      and_then-IfLoaded (IsIndexed yaml (n + 1)) (IsIndexed yaml (n + suc (rule_files es)))
        (load_file yaml e.name e.file m) (load_entries yaml es)
        (load_file-IsIndexed yaml e.name e.file n m h)
        (λ q i. rw step (load_entries-IsIndexed yaml es (n + 1) q i)))
  | inr k ↦ rw k (load_entries-IsIndexed yaml es n m h)
]
  where
    step : n + suc (rule_files es) ≡ n + 1 + rule_files es
    step = omega arith

-- A directory that loads gives a mapper with as many rules as the directory has rule files, whose
-- keys are all different, and each rule stands under its own trimmed source, which is not empty.
pub load-IsIndexed :
    (yaml : Yaml) (dir : String) (es : List Entry) (m : Mapper)
    → load yaml dir (some es) ≡ loaded m
    → IsIndexed yaml (rule_files es) m
unfolding load
load-IsIndexed yaml dir es m h =
    let none_before : 0 + rule_files es ≡ rule_files es = omega arith in
    subst (IfLoaded (IsIndexed yaml (rule_files es))) h (
      subst (λ n. IfLoaded (IsIndexed yaml n) (load_entries yaml es (record { by_q_name = [] })))
        none_before
        (load_entries-IsIndexed yaml es 0 (record { by_q_name = [] })
          (record { nodup = tt; under = tt; size = refl })))

lookup-UnderSource :
    (trim : String → String) (k : String) (r : Rule) (d : Dict Rule)
    → UnderSource trim d
    → lookup k d ≡ some r
    → k ≡ trim r.source
unfolding lookup
lookup-UnderSource trim k r [] u h = ground (arith, h)
lookup-UnderSource trim k r ((j, q) ∷ d) u h = elim (Bool-cases (k == j)) [
  | inl e ↦ ==→eq k j e ∙ (u.0 ∙ ap (λ (x : Rule). trim x.source) (same e))
  | inr e ↦ lookup-UnderSource trim k r d u.2 (ground (arith, e, h))
]
  where
    same : (k == j) ≡ true → q ≡ r
    same e = ground (arith, e, h)

-- The record's source, as its envelope states it.
pub record From (payload : Fields) (schema table : String) : Type 0 where
  pub block : Fields
  pub source : as_map (get "source" payload) ≡ some block
  pub schema_is : as_text (get "schema" block) ≡ schema
  pub table_is : as_text (get "table" block) ≡ table
  pub schema_given : (schema == "") ≡ false
  pub table_given : (table == "") ≡ false

lookup_for_payload-From :
    (m : Mapper) (payload : Fields) (schema table topic : String)
    → From payload schema table
    → lookup_for_payload m payload topic
      ≡ or_else
          (or_else (lookup (schema <> "." <> table) m.by_q_name) (lookup table m.by_q_name))
          (lookup_by_topic_tail m topic)
unfolding lookup_for_payload
lookup_for_payload-From m payload schema table topic f =
    rw (f.source, f.schema_is, f.table_is, f.schema_given, f.table_given) refl

-- In a mapper that Load made, a rule stored for a record's schema and table is the rule that the
-- record meets, whatever its topic and whatever the other rules are, and the rule's own trimmed
-- source is that schema and table.
pub lookup_for_payload_qualified :
    (yaml : Yaml) (dir : String) (es : List Entry) (m : Mapper)
    → load yaml dir (some es) ≡ loaded m
    → (payload : Fields) (schema table topic : String) (r : Rule) → From payload schema table
    → lookup (schema <> "." <> table) m.by_q_name ≡ some r
    → (lookup_for_payload m payload topic ≡ some r)
      × (yaml.trim_space r.source ≡ schema <> "." <> table)
lookup_for_payload_qualified yaml dir es m h payload schema table topic r f k = (
  lookup_for_payload-From m payload schema table topic f ∙ rw k refl,
  sym (lookup-UnderSource yaml.trim_space _ r m.by_q_name (load-IsIndexed yaml dir es m h).under k),
)

-- A record whose schema and table no rule names gets the only rule there is, of another schema, if
-- its topic ends with the table's name and the rule's source does too.
lookup_for_payload_collides :
    (payload : Fields) (schema table topic q : String) (r : Rule)
    → From payload schema table
    → tail_of topic ≡ table
    → (topic == "") ≡ false
    → (schema <> "." <> table == q) ≡ false
    → (table == q) ≡ false
    → has_suffix q ("." <> table) ≡ true
    → lookup_for_payload (record { by_q_name = (q, r) ∷ [] }) payload topic ≡ some r
lookup_for_payload_collides payload schema table topic q r f tail given other bare ends =
    lookup_for_payload-From _ payload schema table topic f
    ∙ unfold lookup lookup_by_topic_tail scan in rw (other, bare, given, tail, bare, ends) refl
