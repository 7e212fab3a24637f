-- ===== src/Tests/BridgeTests.antt =====
-- A record on its way through the transformer to the sink, over a small encoding of two rows.
use mathlib.Core.Option
use public_pg2mongo_cd_c.Base.{
  ℕ, String, true, false, Option, none, some, pos, List, [], ◌∷◌, ◌≡◌, refl, ◌∙◌, sym, ap, ◌==◌,
  if◌then◌else◌, inl, inr, arith, str_dec, eqb, ◌&&◌, not, Bool-cases, lookup,
}
use public_pg2mongo_cd_c.Value.{Value, int, str, obj, Fields, end, field, get, put}
use public_pg2mongo_cd_c.Value.Laws.{get-put}
use public_pg2mongo_cd_c.Writer.{CdcEvent}
use public_pg2mongo_cd_c.Decoder.{
  ValueEnvelope, KeyEnvelope, decode, is_tombstone, trim_space, ok, event_of,
}
use public_pg2mongo_cd_c.Decoder.{Json as SinkJson}
use public_pg2mongo_cd_c.Decoder.Number.{int64}
use public_pg2mongo_cd_c.Mapper.{
  Json, applied, apply_json, lookup_for_payload, rewrite, rename_keys, rename_into, target_of,
  as_map,
}
use public_pg2mongo_cd_c.Transformer.Renames.{
  Bridge, with_images, image_read, image_renamed, apply_json-decode,
}
use public_pg2mongo_cd_c.Tests.TransformerTests.{rules, users}

abbrev with_row : Option Fields → Option Fields → ValueEnvelope
with_row before after = record {
  before = before;
  after = after;
  lsn = "42";
  table = "users";
  ts_ms = "";
  op = "u";
}

abbrev row : String → Fields
row k = field k (int (pos 7)) (field "id" (int (pos 7)) end)

-- What is read of a row of two columns has the key first.
abbrev reread_row : Fields → Fields
reread_row (field k v (field l w end)) =
    if (l == "id") && not (k == "id") then field l w (field k v end) else field k v (field l w end)
reread_row m = m

get-reread_row : (k : String) (m : Fields) → get k (reread_row m) ≡ Option.map (λ v. v) (get k m)
unfolding get
get-reread_row k end = refl
get-reread_row k (field a v end) = ground arith
get-reread_row k (field a v (field b w end)) = ground arith
get-reread_row k (field a v (field b w (field c u m))) =
    same (get k (field a v (field b w (field c u m))))
  where
    same : (o : Option Value) → o ≡ Option.map (λ v. v) o
    same none = refl
    same (some v) = refl

abbrev shape_of : Option Fields → Option ValueEnvelope
shape_of none = none
shape_of (some p) = some (
    with_row (Option.map reread_row (as_map (get "before" p)))
      (Option.map reread_row (as_map (get "after" p))))

abbrev shape : Fields → Option ValueEnvelope
shape m = shape_of (as_map (get "payload" m))

-- A row of the numbers 7 under the old or the new name is one byte; nothing else is written.
abbrev write_ordered : Fields → Option (List ℕ)
write_ordered (field i (int (pos a)) (field k (int (pos b)) end)) =
    if (i == "id") && eqb a 7 && (k == "user_name") && eqb b 7
    then some (1 ∷ [])
    else if (i == "id") && eqb a 7 && (k == "userName") && eqb b 7
    then some (2 ∷ [])
    else none
write_ordered _ = none

abbrev write_row : Option Fields → Option Fields → Option (List ℕ)
write_row none (some m) = write_ordered (reread_row m)
write_row _ _ = none

abbrev write_payload : Option Fields → Option (List ℕ)
write_payload none = none
write_payload (some p) = write_row (as_map (get "before" p)) (as_map (get "after" p))

abbrev payload : Fields
payload =
    field "source" (obj (field "schema" (str "public") (field "table" (str "users") end)))
      (field "after" (obj (row "user_name")) end)

abbrev env : Fields
env = field "payload" (obj payload) end

abbrev json : Json
json = record { unmarshal = λ b. some env; marshal = λ m. write_payload (as_map (get "payload" m)) }

abbrev ordered : String → Fields
ordered k = field "id" (int (pos 7)) (field k (int (pos 7)) end)

abbrev read : List ℕ → Option ValueEnvelope
read (t ∷ []) = some (with_row none (some (ordered (if eqb t 1 then "user_name" else "userName"))))
read _ = none

abbrev sink : SinkJson
sink = record { value_envelope = read; key_envelope = λ b. some (record { id = "7" }) }

live : (is_tombstone (1 ∷ []) ≡ false) × (is_tombstone (2 ∷ []) ≡ false)
unfolding is_tombstone trim_space
live = (refl, refl)

all→eq :
    (i k l : String) (a b : ℕ)
    → ((i == "id") && eqb a 7 && (k == l) && eqb b 7) ≡ true
    → field i (int (pos a)) (field k (int (pos b)) end) ≡ ordered l
all→eq i k l a b h = ground arith

write_ordered-read :
    (m : Fields) (b : List ℕ)
    → write_ordered m ≡ some b
    → (read b ≡ some (with_row none (some m))) × (is_tombstone b ≡ false)
write_ordered-read (field i (int (pos x)) (field k (int (pos y)) end)) b h =
    elim (Bool-cases ((i == "id") && eqb x 7 && (k == "user_name") && eqb y 7)) [
      | inl e ↦
          let s : some (1 ∷ []) ≡ some b = rw e at h in
          let f : 1 ∷ [] ≡ b = cc in rw (← f, all→eq i k "user_name" x y e) (refl, live.0)
      | inr e ↦ elim (Bool-cases ((i == "id") && eqb x 7 && (k == "userName") && eqb y 7)) [
        | inl u ↦
            let s : some (2 ∷ []) ≡ some b = rw (e, u) at h in
            let f : 2 ∷ [] ≡ b = cc in rw (← f, all→eq i k "userName" x y u) (refl, live.1)
        | inr u ↦ let s : none ≡ some b = rw (e, u) at h in cc
      ]
    ]
write_ordered-read _ b h = cc

write_row-read :
    (before after : Option Fields) (b : List ℕ)
    → write_row before after ≡ some b
    → (read b ≡ some (with_row (Option.map reread_row before) (Option.map reread_row after)))
      × (is_tombstone b ≡ false)
write_row-read none (some m) b h = write_ordered-read (reread_row m) b h
write_row-read none none b h = cc
write_row-read (some m) o b h = cc

write_payload-read :
    (o : Option Fields) (b : List ℕ)
    → write_payload o ≡ some b
    → (read b ≡ shape_of o) × (is_tombstone b ≡ false)
write_payload-read none b h = cc
write_payload-read (some p) b h = write_row-read _ _ b h

shape-put : (p m : Fields) → shape (put "payload" (obj p) m) ≡ shape_of (some p)
unfolding str_dec
shape-put p m = rw (get-put "payload" "payload" (obj p) m) refl

bridge : Bridge json sink
bridge = record {
  shape = shape;
  reread = λ v. v;
  reread_row = reread_row;
  get-reread_row = get-reread_row;
  Exact = λ p. Unit;
  marshal_shape = λ m b h. (write_payload-read _ b h).0;
  marshal_live = λ m b h. (write_payload-read _ b h).1;
  shape_ext = λ m n f. ap (λ o. shape_of (as_map o)) (f "payload");
  shape_swapped = λ m p q v x s h.
      shape-put q m
      ∙ ap
          (λ o. elim o [
            | none ↦ none
            | some w ↦ some (
                with_images w (Option.map reread_row (as_map (get "before" q)))
                  (Option.map reread_row (as_map (get "after" q))))
          ])
          (sym (shape-put p m) ∙ h);
}

abbrev seven : KeyEnvelope
seven = record { id = "7" }

abbrev event : CdcEvent
event = event_of (with_row none (some (ordered "user_name"))) seven (pos 42)

event_decoded : decode sink [] (1 ∷ []) ≡ ok event
unfolding decode is_tombstone trim_space int64 str_dec
event_decoded = refl

rule_found : lookup_for_payload rules payload "cdc.users" ≡ some users
unfolding lookup_for_payload get lookup str_dec
rule_found = refl

rewritten : apply_json json rules "cdc.users" (1 ∷ []) ≡ applied (2 ∷ [])
unfolding apply_json lookup_for_payload rewrite rename_keys rename_into target_of get put lookup
    str_dec
rewritten = refl

apply_json-decode_example :
    (event.before ≡ image_read json sink bridge "before" payload)
    × (event.after ≡ image_read json sink bridge "after" payload)
    × (decode sink [] (2 ∷ [])
        ≡ ok (record event {
          after = image_renamed json sink bridge users "after" payload;
          before = image_renamed json sink bridge users "before" payload;
        }))
unfolding bridge
apply_json-decode_example =
    apply_json-decode json sink bridge rules "cdc.users" [] (1 ∷ []) (2 ∷ []) env payload users
      event refl (unfold get str_dec in refl) rule_found tt (unfold bridge get str_dec in refl)
      event_decoded rewritten
