-- ===== src/Mapper/Text.antt =====
-- `strings.LastIndex(topic, ".")` with the slice after it, `strings.HasSuffix`, `strings.CutPrefix`.
use Prim.Native.Char.{code}
use Prim.Native.String.{String}
use public_pg2mongo_cd_c.Base.{Bool, Option, none, some, ◌||◌, ◌==◌, eqb, if◌then◌else◌}

abbrev later : Option String → Bool → String → Option String
later (some t) here s = some t
later none here s = if here then some s else none

-- The text after the last dot, if there is a dot.
unfoldable pub after_last_dot : String → Option String
after_last_dot String.[] = none
after_last_dot (String.◌∷◌ c s) = later (after_last_dot s) (eqb (code c) b'.') s

unfoldable pub has_suffix : String → String → Bool
has_suffix String.[] suffix = String.[] == suffix
has_suffix (String.◌∷◌ c s) suffix = (String.◌∷◌ c s == suffix) || has_suffix s suffix

-- The rest of a text after a prefix, if it has it.
unfoldable pub cut_prefix : String → String → Option String
cut_prefix s String.[] = some s
cut_prefix String.[] (String.◌∷◌ d p) = none
cut_prefix (String.◌∷◌ c s) (String.◌∷◌ d p) =
    let rest = cut_prefix s p in if eqb (code c) (code d) then rest else none
