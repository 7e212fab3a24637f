-- ===== src/Mapper/Rename.antt =====
-- `renameKeys` and the rewriting of the row images: what becomes of each field.
use mathlib.Core.Path.{sym}
use public_pg2mongo_cd_c.Base.{String, true, false, Option, none, some, ◌≡◌, refl, ◌∙◌, ◌≢◌, arith}
use public_pg2mongo_cd_c.Base.{
  ◌==◌, ◌||◌, str_dec, if◌then◌else◌, Dict, ==_self, ==→eq, ◌⊎◌, inl, inr, Bool-cases,
}
use public_pg2mongo_cd_c.Value.{Value, obj, Fields, end, field, get, put}
use public_pg2mongo_cd_c.Value.Laws.{get-put}
use public_pg2mongo_cd_c.Mapper.{
  FieldRule, Rule, target_of, rename_into, rename_keys, rewrite, rewrite_image, as_map,
}

-- The rules give the columns of this row different names.
abbrev pub Has : String → Fields → Type 0
Has k end = ⊥
Has k (field j v m) = (k ≡ j) ⊎ Has k m

abbrev pub IsInjective : Dict FieldRule → Fields → Type 0
IsInjective fields end = Unit
IsInjective fields (field k v m) =
    ((j : String) → Has j m → target_of fields j ≢ target_of fields k) × IsInjective fields m

get-rename_other :
    (fields : Dict FieldRule) (src out : Fields) (t : String)
    → ((j : String) → Has j src → target_of fields j ≢ t)
    → get t (rename_into fields src out) ≡ get t out
unfolding rename_into
get-rename_other fields end out t h = refl
get-rename_other fields (field k v src) out t h =
    get-rename_other fields src _ t (λ j m. h j (inr m))
    ∙ ground (arith, get-put t (target_of fields k) v out, h k (inl refl))

get-rename_into :
    (fields : Dict FieldRule) (src out : Fields) (k : String) (v : Value)
    → IsInjective fields src
    → get k src ≡ some v
    → get (target_of fields k) (rename_into fields src out) ≡ some v
unfolding rename_into get
get-rename_into fields end out k v inj h = ground (arith, h)
get-rename_into fields (field j w src) out k v inj h = elim (Bool-cases (k == j)) [
  | inl e ↦ moved (==→eq k j e) (same e)
  | inr e ↦ get-rename_into fields src (put (target_of fields j) w out) k v inj.1 (other e)
]
  where
    same : (k == j) ≡ true → w ≡ v
    same e = ground (arith, e, h)

    other : (k == j) ≡ false → get k src ≡ some v
    other e = ground (arith, e, h)

    moved :
        k ≡ j
        → w ≡ v
        → get (target_of fields k) (rename_into fields src (put (target_of fields j) w out))
          ≡ some v
    moved p q =
        rw (p, sym q)
          (get-rename_other fields src (put (target_of fields j) w out) (target_of fields j) inj.0
            ∙ (get-put (target_of fields j) (target_of fields j) w out
                ∙ rw (==_self (target_of fields j)) refl))

-- Where the rules give the columns of a row different names, each column's value stands under the
-- column's new name.
pub get-rename_keys :
    (fields : Dict FieldRule) (src : Fields) (k : String) (v : Value)
    → IsInjective fields src
    → get k src ≡ some v
    → get (target_of fields k) (rename_keys src fields) ≡ some v
unfolding rename_keys
get-rename_keys fields src k v inj h = get-rename_into fields src end k v inj h

-- Renaming adds no value: what is found under a name comes from a column of that name.
pub rename_keys_source :
    (fields : Dict FieldRule) (src : Fields) (t : String)
    → ((j : String) → Has j src → target_of fields j ≢ t)
    → get t (rename_keys src fields) ≡ none
unfolding rename_keys get
rename_keys_source fields src t h = get-rename_other fields src end t h

-- The image that a payload has under a key after `rewrite`.
abbrev pub image : Rule → Option Fields → Option Value → Option Value
image rule (some m) old = some (obj (rename_keys m rule.fields))
image rule none old = old

get-rewrite_image :
    (k j : String) (rule : Rule) (o : Option Fields) (payload : Fields)
    → get j (rewrite_image k rule o payload)
      ≡ (if j == k then image rule o (get j payload) else get j payload)
get-rewrite_image k j rule none payload = elim (Bool-cases (j == k)) [
  | inl e ↦ rw e refl
  | inr e ↦ rw e refl
]
get-rewrite_image k j rule (some m) payload = get-put j k (obj (rename_keys m rule.fields)) payload

before_after : ("before" == "after") ≡ false
unfolding str_dec
before_after = refl

-- In the payload that goes out, "before" and "after" hold the renamed row images where they are
-- maps, and every other entry is as it came in.
pub get-rewrite :
    (j : String) (rule : Rule) (payload : Fields)
    → get j (rewrite rule payload) ≡ (
        if j == "before" || j == "after"
        then image rule (as_map (get j payload)) (get j payload)
        else get j payload)
unfolding rewrite
get-rewrite j rule payload =
    let p = rewrite_image "after" rule (as_map (get "after" payload)) payload in
    let untouched : get "before" p ≡ get "before" payload =
      get-rewrite_image "after" "before" rule _ payload ∙ rw before_after refl in
    get-rewrite_image "before" j rule (as_map (get "before" p)) p
    ∙ elim (Bool-cases (j == "before")) [
      | inl e ↦ rw (e, ==→eq j "before" e, untouched) refl
      | inr e ↦ rw e (
          get-rewrite_image "after" j rule _ payload ∙ elim (Bool-cases (j == "after")) [
            | inl k ↦ rw (k, ==→eq j "after" k) refl
            | inr k ↦ rw k refl
          ])
    ]
