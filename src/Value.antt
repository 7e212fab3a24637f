-- ===== src/Value.antt =====
-- Go's `any` and `map[string]any`, as encoding/json and the Mongo driver exchange them.
-- A map is its list of entries, which a range visits in order; a float64 is its bit pattern.
pub mod Laws
use public_pg2mongo_cd_c.Base.{ℕ, String, Bool, true, Option, none, some, ℤ}
use public_pg2mongo_cd_c.Base.{◌==◌, if◌then◌else◌, ◌≡◌}

mutual
  pub data Value : Type 0 where
    null : Value
    bool : Bool → Value
    int : ℤ → Value
    float : ℕ → Value
    str : String → Value
    obj : Fields → Value
    arr : Items → Value

  pub data Fields : Type 0 where
    end : Fields
    field : String → Value → Fields → Fields

  pub data Items : Type 0 where
    nil : Items
    cons : Value → Items → Items

-- `v, ok := m[k]`
unfoldable pub get : String → Fields → Option Value
get k end = none
get k (field j v m) = if k == j then some v else get k m

-- `m[k] = v`
unfoldable pub put : String → Value → Fields → Fields
put k v end = field k v end
put k v (field j w m) = if k == j then field k v m else field j w (put k v m)

-- `for k, v := range src { m[k] = v }`
unfoldable pub copy : Fields → Fields → Fields
copy end m = m
copy (field k v src) m = copy src (put k v m)

-- A Go map holds each key once.
abbrev pub NodupFields : Fields → Type 0
NodupFields end = Unit
NodupFields (field k v m) = (get k m ≡ none) × NodupFields m

-- Every key of the map passes a test.
abbrev pub AllKeys : (String → Bool) → Fields → Type 0
AllKeys p end = Unit
AllKeys p (field k v m) = (p k ≡ true) × AllKeys p m
