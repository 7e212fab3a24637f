-- ===== src/Dlqtool/Sort.antt =====
-- services/sink/cmd/dlqtool: `sortedKeys` and the two tables that the tool prints. `sort.Slice` is an
-- insertion sort here: it leaves the order of equal counts open, and this is one such order.
use mathlib.Core.List.{Permᴰ}
use public_pg2mongo_cd_c.Base.Perms.{perm-refl, perm-All}
use public_pg2mongo_cd_c.Base.{ℕ, ◌+◌, ◌≤◌, String, false, none, some, ◌≡◌, refl, ◌∙◌, ap, arith}
use public_pg2mongo_cd_c.Base.{
  List, [], ◌∷◌, map, ltb, if◌then◌else◌, Dict, keys, lookup, NodupKeys, All, Bool-cases, inl, inr,
  lookup-cons, ◌==◌, ==_self,
}
use public_pg2mongo_cd_c.Dlqtool.{count_of, count_or_zero}
use public_pg2mongo_cd_c.Dlqtool.Accounts.{sum_counts}

unfoldable pub place : Dict ℕ → String → List String → List String
place m k [] = k ∷ []
place m k (j ∷ js) =
    let rest = place m k js in if ltb (count_of m k) (count_of m j) then j ∷ rest else k ∷ j ∷ js

unfoldable pub sort_slice : Dict ℕ → List String → List String
sort_slice m [] = []
sort_slice m (k ∷ ks) = place m k (sort_slice m ks)

unfoldable pub sorted_keys : Dict ℕ → List String
sorted_keys m = sort_slice m (keys m)

-- The lines of a table: a count and its key.
abbrev pub table : Dict ℕ → List (ℕ × String)
table m = map (λ k. (count_of m k, k)) (sorted_keys m)

abbrev pub total : List (ℕ × String) → ℕ
total [] = 0
total ((n, _) ∷ ls) = n + total ls

-- The count of each line is at least those of the lines after it.
abbrev pub IsDescending : List (ℕ × String) → Type 0
IsDescending [] = Unit
IsDescending ((n, _) ∷ ls) = All (λ (l : ℕ × String). l.0 ≤ n) ls × IsDescending ls

place-perm : (m : Dict ℕ) (k : String) (js : List String) → Permᴰ (place m k js) (k ∷ js)
unfolding place
place-perm m k [] = perm-refl (k ∷ [])
place-perm m k (j ∷ js) = elim (Bool-cases (ltb (count_of m k) (count_of m j))) [
  | inl h ↦ rw h (Permᴰ.trans (Permᴰ.cons refl (place-perm m k js)) (Permᴰ.swap refl refl))
  | inr h ↦ rw h (perm-refl (k ∷ j ∷ js))
]

sort_slice-perm : (m : Dict ℕ) (ks : List String) → Permᴰ (sort_slice m ks) ks
unfolding sort_slice
sort_slice-perm m [] = Permᴰ.nil
sort_slice-perm m (k ∷ ks) =
    Permᴰ.trans (place-perm m k (sort_slice m ks)) (Permᴰ.cons refl (sort_slice-perm m ks))

module _ (m : Dict ℕ) where
  -- No key has a count above `n`.
  abbrev pub AtMost : ℕ → List String → Type 0
  AtMost n ks = All (λ k. count_of m k ≤ n) ks

  -- The count of each key is at least those of the keys after it.
  abbrev pub IsDescendingBy : List String → Type 0
  IsDescendingBy [] = Unit
  IsDescendingBy (k ∷ ks) = AtMost (count_of m k) ks × IsDescendingBy ks

  AtMost-le : (a b : ℕ) (ks : List String) → a ≤ b → AtMost a ks → AtMost b ks
  AtMost-le a b [] h _ = tt
  AtMost-le a b (k ∷ ks) h (le, rest) = (omega (arith, h, le), AtMost-le a b ks h rest)

  place-IsDescendingBy :
      (k : String) (js : List String) → IsDescendingBy js → IsDescendingBy (place m k js)
  unfolding place
  place-IsDescendingBy k [] _ = (tt, tt)
  place-IsDescendingBy k (j ∷ js) (le, d) = elim (Bool-cases (ltb (count_of m k) (count_of m j))) [
    | inl h ↦ rw h (
      perm-All (λ x. count_of m x ≤ count_of m j) (place-perm m k js) (ground arith, le),
      place-IsDescendingBy k js d,
    )
    | inr h ↦
        rw h ((ground arith, AtMost-le (count_of m j) (count_of m k) js (ground arith) le), (le, d))
  ]

  sort_slice-IsDescendingBy : (ks : List String) → IsDescendingBy (sort_slice m ks)
  unfolding sort_slice
  sort_slice-IsDescendingBy [] = tt
  sort_slice-IsDescendingBy (k ∷ ks) =
      place-IsDescendingBy k (sort_slice m ks) (sort_slice-IsDescendingBy ks)

  lines-AtMost :
      (n : ℕ) (ks : List String)
      → AtMost n ks
      → All (λ (l : ℕ × String). l.0 ≤ n) (map (λ k. (count_of m k, k)) ks)
  lines-AtMost n [] _ = tt
  lines-AtMost n (k ∷ ks) (le, rest) = (le, lines-AtMost n ks rest)

  lines-IsDescending :
      (ks : List String) → IsDescendingBy ks → IsDescending (map (λ k. (count_of m k, k)) ks)
  lines-IsDescending [] _ = tt
  lines-IsDescending (k ∷ ks) (le, d) = (lines-AtMost (count_of m k) ks le, lines-IsDescending ks d)

  total-perm :
      {xs ys : List String}
      → Permᴰ xs ys
      → total (map (λ k. (count_of m k, k)) xs) ≡ total (map (λ k. (count_of m k, k)) ys)
  total-perm Permᴰ.nil = refl
  total-perm (Permᴰ.cons e p) = omega (arith, ap (count_of m) e, total-perm p)
  total-perm (Permᴰ.swap e f) = omega (arith, ap (count_of m) e, ap (count_of m) f)
  total-perm (Permᴰ.trans p q) = total-perm p ∙ total-perm q

-- A key that is not in a map differs from each of the map's keys.
fresh-keys : (k : String) (m : Dict ℕ) → lookup k m ≡ none → All (λ j. (j == k) ≡ false) (keys m)
unfolding lookup
fresh-keys k [] h = tt
fresh-keys k ((j, n) ∷ m) h = ground (arith, fresh-keys k m)

-- An entry under a fresh key changes no count of the others.
total-cons :
    (k : String) (n : ℕ) (m : Dict ℕ) (js : List String)
    → All (λ j. (j == k) ≡ false) js
    → total (map (λ j. (count_of ((k, n) ∷ m) j, j)) js) ≡ total (map (λ j. (count_of m j, j)) js)
unfolding lookup
total-cons k n m [] h = refl
total-cons k n m (j ∷ js) (ne, h) = rw ne (ap (◌+◌ (count_of m j)) (total-cons k n m js h))

total-keys :
    (m : Dict ℕ) → NodupKeys m → total (map (λ k. (count_of m k, k)) (keys m)) ≡ sum_counts m
total-keys [] _ = refl
total-keys ((k, n) ∷ m) (fresh, u) =
    let head =
      ap count_or_zero
        (lookup-cons k k n m ∙ ap (λ b. if b then some n else lookup k m) (==_self k)) in
    omega (arith, head, total-cons k n m (keys m) (fresh-keys k m fresh), total-keys m u)

-- The keys of a table are those of the map, the counts descend, and they add up to the map's.
pub table-IsSorted :
    (m : Dict ℕ)
    → NodupKeys m
    → Permᴰ (sorted_keys m) (keys m) × IsDescending (table m) × (total (table m) ≡ sum_counts m)
unfolding sorted_keys
table-IsSorted m u = (
  sort_slice-perm m (keys m),
  lines-IsDescending m (sort_slice m (keys m)) (sort_slice-IsDescendingBy m (keys m)),
  total-perm m (sort_slice-perm m (keys m)) ∙ total-keys m u,
)
