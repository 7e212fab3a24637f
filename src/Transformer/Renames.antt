-- ===== src/Transformer/Renames.antt =====
-- From the transformer to the sink: what the sink's decoder makes of a record that the mapper has
-- rewritten.
use mathlib.Core.Option
use public_pg2mongo_cd_c.Base.{
  String, Bool, true, false, Option, none, some, List, ◌≡◌, refl, sym, ◌∙◌, ap, ◌⊎◌, inl, inr, ◌==◌,
  ◌||◌, ℕ, arith, str_dec, Bool-cases, Option-cases, ==→eq,
}
use public_pg2mongo_cd_c.Value.{Value, obj, Fields, get, put}
use public_pg2mongo_cd_c.Value.Laws.{get-put}
use public_pg2mongo_cd_c.Writer.{CdcEvent}
use public_pg2mongo_cd_c.Decoder.{ValueEnvelope, decode, is_tombstone, ok}
use public_pg2mongo_cd_c.Decoder.{Json as SinkJson}
use public_pg2mongo_cd_c.Decoder.Laws.{decode-Origin, live-IsTombstone}
use public_pg2mongo_cd_c.Mapper.{
  Json, Mapper, Rule, applied, apply_json, lookup_for_payload, rewrite, rename_keys, as_map,
}
use public_pg2mongo_cd_c.Mapper.Rename.{image, get-rewrite}

abbrev pub is_image : String → Bool
is_image k = k == "before" || k == "after"

-- A payload with other row images, which are maps where they differ.
pub record Swapped (p q : Fields) : Type 0 where
  pub others : (k : String) → is_image k ≡ false → get k q ≡ get k p
  pub images :
      (k : String)
      → is_image k ≡ true
      → (get k q ≡ get k p) ⊎ ((m : Fields) × (get k q ≡ some (obj m)))

-- encoding/json on both sides of the topic: the transformer's maps and the sink's struct.
pub record Bridge (json : Json) (sink : SinkJson) : Type 1 where
  -- The struct that the text of a map fills, none for an error.
  pub shape : Fields → Option ValueEnvelope
  -- What is read of a value that was written, and of a row: its columns in an order of their own,
  -- whatever order the map had.
  pub reread : Value → Value
  pub reread_row : Fields → Fields
  pub get-reread_row :
      (k : String) (m : Fields) → get k (reread_row m) ≡ Option.map reread (get k m)
  -- The keys of a payload that the struct tells apart: it takes them in upper case too.
  pub Exact : Fields → Type 0
  pub marshal_shape :
      (m : Fields) (b : List ℕ) → json.marshal m ≡ some b → sink.value_envelope b ≡ shape m
  -- The text of a map begins with a brace.
  pub marshal_live : (m : Fields) (b : List ℕ) → json.marshal m ≡ some b → is_tombstone b ≡ false
  pub shape_ext : (m n : Fields) → ((k : String) → get k m ≡ get k n) → shape m ≡ shape n
  pub shape_swapped :
      (env p q : Fields) (v : ValueEnvelope)
      → Exact p
      → Swapped p q
      → shape (put "payload" (obj p) env) ≡ some v
      → shape (put "payload" (obj q) env)
        ≡ some (record v {
          before = Option.map reread_row (as_map (get "before" q));
          after = Option.map reread_row (as_map (get "after" q));
        })

abbrev pub renamed : Rule → Option Fields → Option Fields
renamed rule none = none
renamed rule (some m) = some (rename_keys m rule.fields)

as_map-image :
    (rule : Rule) (o : Option Value) → as_map (image rule (as_map o) o) ≡ renamed rule (as_map o)
as_map-image rule o = elim (Option-cases (as_map o)) [ inl e ↦ rw e e | inr (m, e) ↦ rw e refl ]

image_map :
    (rule : Rule) (o : Option Value)
    → (image rule (as_map o) o ≡ o) ⊎ ((m : Fields) × (image rule (as_map o) o ≡ some (obj m)))
image_map rule o = elim (Option-cases (as_map o)) [
  | inl e ↦ inl (rw e refl)
  | inr (m, e) ↦ inr (rename_keys m rule.fields, rw e refl)
]

get-image :
    (k : String) (rule : Rule) (p : Fields)
    → is_image k ≡ true
    → get k (rewrite rule p) ≡ image rule (as_map (get k p)) (get k p)
get-image k rule p h = get-rewrite k rule p ∙ rw h refl

rewrite-Swapped : (rule : Rule) (p : Fields) → Swapped p (rewrite rule p)
rewrite-Swapped rule p = record {
  others = λ k h. get-rewrite k rule p ∙ rw h refl;
  images = λ k h. rw (get-image k rule p h) (image_map rule (get k p));
}

put_back : (k j : String) (v : Value) (m : Fields) → get k m ≡ some v → get j (put k v m) ≡ get j m
put_back k j v m h =
    get-put j k v m
    ∙ elim (Bool-cases (j == k)) [ inl e ↦ rw (e, ==→eq j k e, h) refl | inr e ↦ rw e refl ]

abbrev pub with_images : ValueEnvelope → Option Fields → Option Fields → ValueEnvelope
with_images v b a = record v { before = b; after = a }

both :
    (v : ValueEnvelope) {b b' a a' : Option Fields}
    → b ≡ b'
    → a ≡ a'
    → with_images v b a ≡ with_images v b' a'
both v e f = cc

before_is_image : is_image "before" ≡ true
unfolding str_dec
before_is_image = refl

after_is_image : is_image "after" ≡ true
unfolding str_dec
after_is_image = refl

module _ (json : Json) (sink : SinkJson) (B : Bridge json sink) where
  Swapped-refl : (p : Fields) → Swapped p p
  Swapped-refl p = record { others = λ k h. refl; images = λ k h. inl refl }

  -- A row image of a payload as the sink reads it.
  abbrev pub image_read : String → Fields → Option Fields
  image_read k p = Option.map B.reread_row (as_map (get k p))

  -- The same with its columns renamed by the rule.
  abbrev pub image_renamed : Rule → String → Fields → Option Fields
  image_renamed rule k p = Option.map B.reread_row (renamed rule (as_map (get k p)))

  -- The struct of an envelope has the row images of its payload.
  shape-images :
      (env payload : Fields) (v : ValueEnvelope)
      → B.Exact payload
      → B.shape (put "payload" (obj payload) env) ≡ some v
      → (v.before ≡ image_read "before" payload) × (v.after ≡ image_read "after" payload)
  shape-images env payload v x h =
      let e = sym h ∙ B.shape_swapped env payload payload v x (Swapped-refl payload) h in
      let e' : v ≡ with_images v (image_read "before" payload) (image_read "after" payload) = cc in
      (ap (λ (w : ValueEnvelope). w.before) e', ap (λ (w : ValueEnvelope). w.after) e')

  -- The struct of the envelope as it stands, which holds the payload already.
  shape-whole :
      (env payload : Fields) (v : ValueEnvelope)
      → get "payload" env ≡ some (obj payload)
      → B.shape env ≡ some v
      → B.shape (put "payload" (obj payload) env) ≡ some v
  shape-whole env payload v at h =
      B.shape_ext (put "payload" (obj payload) env) env
        (λ j. put_back "payload" j (obj payload) env at)
      ∙ h

  shape-rewrite :
      (rule : Rule) (env payload : Fields) (v : ValueEnvelope)
      → B.Exact payload
      → get "payload" env ≡ some (obj payload)
      → B.shape env ≡ some v
      → B.shape (put "payload" (obj (rewrite rule payload)) env)
        ≡ some (
            with_images v
              (image_renamed rule "before" payload)
              (image_renamed rule "after" payload))
  shape-rewrite rule env payload v x at h =
      B.shape_swapped env payload (rewrite rule payload) v x (rewrite-Swapped rule payload)
        (shape-whole env payload v at h)
      ∙ ap (λ w. some w)
          (both v (rewritten "before" before_is_image) (rewritten "after" after_is_image))
    where
      rewritten :
          (k : String)
          → is_image k ≡ true
          → image_read k (rewrite rule payload) ≡ image_renamed rule k payload
      rewritten k i =
          ap (λ o. Option.map B.reread_row (as_map o)) (get-image k rule payload i)
          ∙ ap (Option.map B.reread_row) (as_map-image rule (get k payload))

  marshalled :
      (m : Mapper) (topic : String) (envelope out : List ℕ) (env payload : Fields) (rule : Rule)
      → json.unmarshal envelope ≡ some env
      → get "payload" env ≡ some (obj payload)
      → lookup_for_payload m payload topic ≡ some rule
      → apply_json json m topic envelope ≡ applied out
      → json.marshal (put "payload" (obj (rewrite rule payload)) env) ≡ some out
  unfolding apply_json
  marshalled m topic envelope out env payload rule u at l h = ground arith

  -- If the sink decodes a record to an event, and a rule renames the record, then the event has the
  -- row images of the payload, and the sink decodes what the mapper makes of the record to the same
  -- event with the images of the payload renamed by the rule: table, key, LSN, time and operation
  -- are untouched. Both images are read as JSON leaves them, with their columns in whatever order
  -- the parser gives them. The two parsers read the record alike, which takes numbers that a
  -- float64 holds, and the payload has no two keys that the sink's struct takes for one.
  pub apply_json-decode :
      (m : Mapper) (topic : String) (key envelope out : List ℕ) (env payload : Fields) (rule : Rule)
      (ev : CdcEvent)
      → json.unmarshal envelope ≡ some env
      → get "payload" env ≡ some (obj payload)
      → lookup_for_payload m payload topic ≡ some rule
      → B.Exact payload
      → sink.value_envelope envelope ≡ B.shape env
      → decode sink key envelope ≡ ok ev
      → apply_json json m topic envelope ≡ applied out
      → (ev.before ≡ image_read "before" payload)
        × (ev.after ≡ image_read "after" payload)
        × (decode sink key out
            ≡ ok (record ev {
              after = image_renamed rule "after" payload;
              before = image_renamed rule "before" payload;
            }))
  apply_json-decode m topic key envelope out env payload rule ev u at l x same d h =
      let text = marshalled m topic envelope out env payload rule u at l h in
      let (o, bound) = (decode-Origin sink key envelope ev).0 d in
      let held = sym same ∙ o.value_parsed in
      let shaped = shape-rewrite rule env payload o.v x at held in
      let images = shape-images env payload o.v x (shape-whole env payload o.v at held) in
      (
        o.before ∙ images.0,
        o.after ∙ images.1,
        (decode-Origin sink key out _).1 (
          record {
            v =
                with_images o.v (image_renamed rule "before" payload)
                  (image_renamed rule "after" payload);
            k = o.k;
            live = live-IsTombstone out (B.marshal_live _ out text);
            value_parsed = B.marshal_shape _ out text ∙ shaped;
            key_parsed = o.key_parsed;
            lsn_parsed = o.lsn_parsed;
            has_pk = o.has_pk;
            table = o.table;
            pk = o.pk;
            op = o.op;
            after = refl;
            before = refl;
            time = o.time;
          },
          bound,
        ),
      )
