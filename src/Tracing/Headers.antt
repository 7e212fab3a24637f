-- ===== src/Tracing/Headers.antt =====
-- The laws of the header carrier.
use public_pg2mongo_cd_c.Base.{String, Option, none, some, ◌≡◌, refl, ◌∙◌, List, [], ◌∷◌, arith}
use public_pg2mongo_cd_c.Base.{◌==◌, if◌then◌else◌, Dict, lookup, NodupKeys}
use public_pg2mongo_cd_c.Kgo.{RecordHeader}
use public_pg2mongo_cd_c.Tracing.{first_value, replace, set, get, inject}

pub first_value-replace :
    (j k v : String) (hs : List RecordHeader)
    → first_value j (replace k v hs) ≡ (if k == j then v else first_value j hs)
unfolding first_value replace
first_value-replace j k v [] = refl
first_value-replace j k v (h ∷ hs) = ground (arith, first_value-replace j k v hs)

abbrev pub value_or : Option String → String → String
value_or none d = d
value_or (some v) d = v

value_or-set :
    (j k v : String) (pairs : Dict String) (hs : List RecordHeader)
    → lookup k pairs ≡ none
    → value_or (lookup j pairs) (first_value j (replace k v hs))
      ≡ value_or (if j == k then some v else lookup j pairs) (first_value j hs)
value_or-set j k v pairs hs u = ground (arith, first_value-replace j k v hs)

-- The headers after an injection, by the pairs that the propagator set.
pub first_value-inject :
    (j : String) (pairs : Dict String) (hs : List RecordHeader)
    → NodupKeys pairs
    → get j (inject pairs (some hs)) ≡ value_or (lookup j pairs) (first_value j hs)
unfolding inject set lookup get
first_value-inject j [] hs u = refl
first_value-inject j ((k, v) ∷ pairs) hs u =
    first_value-inject j pairs (replace k v hs) u.1 ∙ value_or-set j k v pairs hs u.0
