-- ===== src/Sink/Backoff.antt =====
-- `backoffDuration`, in nanoseconds, with the 64-bit shift of Go.
use native.Mathlib.Nat.{pow-suc, one-le-pow, pow-le-pow_right}
use public_pg2mongo_cd_c.Base.{
  ℕ, zero, suc, ◌+◌, ◌*◌, ◌-◌, ◌%◌, ◌^◌, ◌≤◌, ◌<◌, Bool, true, ◌&&◌, ◌||◌, ◌≡◌, refl, ◌∙◌,
}
use public_pg2mongo_cd_c.Base.{
  ℤ, pos, negsuc, eqb, leb, ltb, if◌then◌else◌, arith, Bool-cases, inl, inr, ltb→lt, eqb→eq, sym,
  ◌⊎◌,
}
use Prim.Native.Nat.{min}

abbrev pub base_backoff : ℕ
base_backoff = 500_000_000

abbrev pub max_backoff : ℕ
max_backoff = 30_000_000_000

abbrev two_63 : ℕ
two_63 = 2 ^ 63

abbrev two_64 : ℕ
two_64 = 2 ^ 64

-- The bits of `baseBackoff << k` as an int64: the high bits are lost.
shifted : ℕ → ℕ
shifted k = base_backoff * 2 ^ k % two_64

-- An int64 is below 1 where its bits are all 0 or the sign bit is set.
clamped : ℕ → ℕ
clamped d = if (eqb d 0 || leb two_63 d) || ltb max_backoff d then max_backoff else d

unfoldable pub backoff_duration : ℤ → ℕ
unfolding shifted clamped
backoff_duration (negsuc n) = base_backoff
backoff_duration (pos zero) = base_backoff
backoff_duration (pos (suc k)) = clamped (shifted k)

-- A test passes at every number under a limit.
passes_under : (ℕ → Bool) → ℕ → Bool
passes_under test zero = true
passes_under test (suc limit) = passes_under test limit && test limit

passes_under-lt :
    (test : ℕ → Bool) (limit j : ℕ) → passes_under test limit ≡ true → j < limit → test j ≡ true
unfolding passes_under
passes_under-lt test zero j h below = absurd (omega arith)
passes_under-lt test (suc limit) j h below = ground (arith, passes_under-lt test limit j)

table :
    passes_under (λ k. eqb (clamped (shifted k)) (min (base_backoff * 2 ^ k) max_backoff)) 35 ≡ true
unfolding passes_under clamped shifted
table = refl

-- From the 35th doubling on, the bits that are left are a multiple of 2^43.
high : (j : ℕ) → base_backoff * 2 ^ (j + 35) ≡ 2 ^ 43 * (1953125 * 2 ^ j)
high zero = refl
high (suc j) =
    let e : suc j + 35 ≡ suc (j + 35) = omega arith in
    rw (e, pow-suc 2 (j + 35), pow-suc 2 j) (omega (arith, high j))

multiple : (m : ℕ) → (2 ^ 43 * m % two_64 ≡ 0) ⊎ (2 ^ 43 ≤ 2 ^ 43 * m % two_64)
multiple m = omega arith

clamped_large : (w : ℕ) → (w ≡ 0) ⊎ (2 ^ 43 ≤ w) → clamped w ≡ max_backoff
unfolding clamped
clamped_large w h = ground arith

min_large : (x : ℕ) → max_backoff ≤ x → min x max_backoff ≡ max_backoff
min_large x h = omega arith

late : (j : ℕ) → clamped (shifted (j + 35)) ≡ min (base_backoff * 2 ^ (j + 35)) max_backoff
unfolding shifted
late j = rw (high j) (
    clamped_large _ (multiple (1953125 * 2 ^ j))
    ∙ sym (min_large _ (omega (arith, one-le-pow j 2 (omega arith)))))

-- The delay before retry k + 1 is the base doubled k times, or the cap where that is less: no
-- shift, however far it overflows 64 bits, gives another delay.
pub backoff_duration-eq-min :
    (k : ℕ) → backoff_duration (pos (suc k)) ≡ min (base_backoff * 2 ^ k) max_backoff
unfolding backoff_duration
backoff_duration-eq-min k = elim (Bool-cases (ltb k 35)) [
  | inl h ↦ eqb→eq _ _ (passes_under-lt _ 35 k table (ltb→lt k 35 h))
  | inr h ↦ let e : k ≡ (k - 35) + 35 = ground arith in rw e (late (k - 35))
]

-- For every integer, negative ones included, the delay lies between the base and the cap.
pub backoff_duration_bounds :
    (n : ℤ) → (base_backoff ≤ backoff_duration n) × (backoff_duration n ≤ max_backoff)
unfolding backoff_duration
backoff_duration_bounds (negsuc n) = omega arith
backoff_duration_bounds (pos zero) = omega arith
backoff_duration_bounds (pos (suc k)) =
    rw (backoff_duration-eq-min k) (omega (arith, one-le-pow k 2 (omega arith)))

-- More failures in a row never make the delay shorter.
pub backoff_duration_mono : (m n : ℕ) → m ≤ n → backoff_duration (pos m) ≤ backoff_duration (pos n)
backoff_duration_mono zero n h = unfold backoff_duration in (backoff_duration_bounds (pos n)).0
backoff_duration_mono (suc m) zero h = absurd (omega arith)
backoff_duration_mono (suc m) (suc n) h =
    rw (backoff_duration-eq-min m, backoff_duration-eq-min n)
      (omega (arith, pow-le-pow_right {n = 2} (omega arith) {i = m} {j = n} (omega arith)))
