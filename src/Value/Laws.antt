-- ===== src/Value/Laws.antt =====
-- Reading after writing, for maps from texts to values.
use public_pg2mongo_cd_c.Base.{
  String, Bool, true, none, some, Option, arith, ◌==◌, if◌then◌else◌, ◌≡◌, refl,
}
use public_pg2mongo_cd_c.Value.{Value, Fields, end, field, get, put, copy, NodupFields, AllKeys}

pub get-put :
    (j k : String) (v : Value) (m : Fields)
    → get j (put k v m) ≡ (if j == k then some v else get j m)
unfolding get put
get-put j k v end = refl
get-put j k v (field i w m) = ground (arith, get-put j k v m)

-- The value of a map laid over a default.
abbrev pub first_some : Option Value → Option Value → Option Value
first_some none d = d
first_some (some v) d = some v

pub get-copy :
    (j : String) (src m : Fields)
    → NodupFields src
    → get j (copy src m) ≡ first_some (get j src) (get j m)
unfolding copy get
get-copy j end m u = refl
get-copy j (field k v src) m u = ground (arith, get-copy j src (put k v m) u.1, get-put j k v m)

pub put-NodupFields :
    (k : String) (v : Value) (m : Fields) → NodupFields m → NodupFields (put k v m)
unfolding put get
put-NodupFields k v end u = (refl, tt)
put-NodupFields k v (field j w m) u = ground (arith, put-NodupFields k v m u.1, get-put j k v m)

pub put-AllKeys :
    (p : String → Bool) (k : String) (v : Value) (m : Fields)
    → p k ≡ true
    → AllKeys p m
    → AllKeys p (put k v m)
unfolding put
put-AllKeys p k v end h a = (h, tt)
put-AllKeys p k v (field j w m) h a = ground (arith, put-AllKeys p k v m h a.1)

pub copy-AllKeys :
    (p : String → Bool) (src m : Fields) → AllKeys p src → AllKeys p m → AllKeys p (copy src m)
unfolding copy
copy-AllKeys p end m a b = b
copy-AllKeys p (field k v src) m a b =
    copy-AllKeys p src (put k v m) a.1 (put-AllKeys p k v m a.0 b)

pub copy-NodupFields : (src m : Fields) → NodupFields m → NodupFields (copy src m)
unfolding copy
copy-NodupFields end m u = u
copy-NodupFields (field k v src) m u = copy-NodupFields src (put k v m) (put-NodupFields k v m u)
