-- ===== src/Decoder/Number.antt =====
-- `json.Number.Int64`, that is `strconv.ParseInt(s, 10, 64)`.
use Prim.Native.Char.{code}
use public_pg2mongo_cd_c.Base.{ℕ, ◌+◌, ◌-◌, ◌*◌, ◌^◌, String, true, false, Option, none, some}
use public_pg2mongo_cd_c.Base.{
  ℤ, pos, negsuc, ◌≤ℤ◌, List, [], ◌∷◌, eqb, leb, ltb, ◌&&◌, if◌then◌else◌, arith, ◌≡◌, refl,
}

abbrev pub codes : String → List ℕ
codes String.[] = []
codes (String.◌∷◌ c s) = code c ∷ codes s

-- The digits after those read so far.
digits : List ℕ → ℕ → Option ℕ
digits [] n = some n
digits (c ∷ s) n = elim (leb b'0' c && leb c b'9') [
  | true ↦ digits s (10 * n + (c - b'0'))
  | false ↦ none
]

-- A text with no digit is an error.
magnitude : List ℕ → Option ℕ
unfolding digits
magnitude [] = none
magnitude (c ∷ s) = digits (c ∷ s) 0

abbrev negated : ℕ → ℤ
negated n = if eqb n 0 then pos 0 else negsuc (n - 1)

abbrev pub two_63 : ℕ
two_63 = 2 ^ 63

abbrev positive : Option ℕ → Option ℤ
positive none = none
positive (some n) = if ltb n two_63 then some (pos n) else none

abbrev negative : Option ℕ → Option ℤ
negative none = none
negative (some n) = if leb n two_63 then some (negated n) else none

signed : List ℕ → Option ℤ
unfolding magnitude
signed [] = none
signed (c ∷ s) =
    if eqb c b'-'
    then negative (magnitude s)
    else if eqb c b'+'
    then positive (magnitude s)
    else positive (magnitude (c ∷ s))

unfoldable pub int64 : String → Option ℤ
unfolding signed
int64 s = signed (codes s)

abbrev pub IsInt64 : ℤ → Type 0
IsInt64 n = (negsuc (two_63 - 1) ≤ℤ n) × (n ≤ℤ pos (two_63 - 1))

positive-IsInt64 : (o : Option ℕ) (n : ℤ) → positive o ≡ some n → IsInt64 n
positive-IsInt64 none n h = cc
positive-IsInt64 (some m) n h = ground arith

negative-IsInt64 : (o : Option ℕ) (n : ℤ) → negative o ≡ some n → IsInt64 n
negative-IsInt64 none n h = cc
negative-IsInt64 (some m) n h = ground arith

signed-IsInt64 : (s : List ℕ) (n : ℤ) → signed s ≡ some n → IsInt64 n
unfolding signed
signed-IsInt64 [] n h = cc
signed-IsInt64 (c ∷ s) n h = ground (
  arith,
  negative-IsInt64 (magnitude s) n,
  positive-IsInt64 (magnitude s) n,
  positive-IsInt64 (magnitude (c ∷ s)) n,
)

-- A number that is read fits in 64 bits.
pub int64-IsInt64 : (s : String) (n : ℤ) → int64 s ≡ some n → IsInt64 n
unfolding int64
int64-IsInt64 s n h = signed-IsInt64 (codes s) n h

int64_tests :
    (int64 "" ≡ none)
    × (int64 "-" ≡ none)
    × (int64 "12a" ≡ none)
    × (int64 "-9223372036854775808" ≡ some (negsuc 9223372036854775807))
    × (int64 "9223372036854775808" ≡ none)
    × (int64 "+41" ≡ some (pos 41))
unfolding int64
int64_tests = (refl, refl, refl, refl, refl, refl)
