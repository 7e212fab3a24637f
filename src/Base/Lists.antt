-- ===== src/Base/Lists.antt =====
-- Lists measured by native numbers, under the library's names, and predicates by recursion.
use Prim.Native.Nat.{ℕ, suc, ◌+◌, ◌≤◌}
use Prim.{absurd}
use mathlib.Core.Path.{◌≡◌, refl, ap, sym, subst}
use mathlib.Core.Logic.{◌⊎◌, inl, inr}
use mathlib.Core.Bool.{Bool, cond}
use mathlib.Core.List.{List, [], ◌∷◌, ◌++◌, map}
use native.Mathlib.Omega.{arith}

module _ {ℓ} {A : Type ℓ} where
  abbrev pub length : List A → ℕ
  length [] = 0
  length (x ∷ xs) = suc (length xs)

  -- The elements that pass a Boolean test, in order.
  abbrev pub filter : (A → Bool) → List A → List A
  filter p [] = []
  filter p (x ∷ xs) = let rest = filter p xs in cond (p x) (x ∷ rest) rest

  abbrev pub All {κ} : (A → Type κ) → List A → Type κ
  All P [] = Unit
  All P (x ∷ xs) = P x × All P xs

  pub length-append : (xs ys : List A) → length (xs ++ ys) ≡ length xs + length ys
  length-append [] ys = omega arith
  length-append (x ∷ xs) ys = omega (arith, length-append xs ys)

  pub length-filter-le : (p : A → Bool) (xs : List A) → length (filter p xs) ≤ length xs
  length-filter-le p [] = omega arith
  length-filter-le p (x ∷ xs) = ground (arith, length-filter-le p xs)

  pub filter-append :
      (p : A → Bool) (xs ys : List A) → filter p (xs ++ ys) ≡ filter p xs ++ filter p ys
  filter-append p [] ys = refl
  filter-append p (x ∷ xs) ys = ground (arith, filter-append p xs ys)

  pub All-append {κ} : (P : A → Type κ) (xs ys : List A) → All P xs → All P ys → All P (xs ++ ys)
  All-append P [] ys hx hy = hy
  All-append P (x ∷ xs) ys hx hy = (hx.0, All-append P xs ys hx.1 hy)

pub length-map {ℓ κ} :
    {A : Type ℓ} {B : Type κ} (f : A → B) (xs : List A) → length (map f xs) ≡ length xs
length-map f [] = refl
length-map f (x ∷ xs) = ap suc (length-map f xs)

-- Membership by recursion, and lists that hold elements of another only.
module _ {A : Type 0} where
  abbrev pub In : A → List A → Type 0
  In x [] = ⊥
  In x (y ∷ ys) = (x ≡ y) ⊎ In x ys

  abbrev pub Within : List A → List A → Type 0
  Within xs ys = All (λ x. In x ys) xs

  pub In-left : (x : A) (xs ys : List A) → In x xs → In x (xs ++ ys)
  In-left x [] ys h = absurd h
  In-left x (y ∷ xs) ys (inl e) = inl e
  In-left x (y ∷ xs) ys (inr h) = inr (In-left x xs ys h)

  pub In-right : (x : A) (xs ys : List A) → In x ys → In x (xs ++ ys)
  In-right x [] ys h = h
  In-right x (y ∷ xs) ys h = inr (In-right x xs ys h)

  In-later : (y : A) (xs zs : List A) → All (λ x. In x zs) xs → All (λ x. In x (y ∷ zs)) xs
  In-later y [] zs h = tt
  In-later y (x ∷ xs) zs h = (inr h.0, In-later y xs zs h.1)

  pub All-In-left : (xs ys : List A) → All (λ x. In x (xs ++ ys)) xs
  All-In-left [] ys = tt
  All-In-left (x ∷ xs) ys = (inl refl, In-later x xs (xs ++ ys) (All-In-left xs ys))

  pub In-all : (P : A → Type 0) (x : A) (ys : List A) → In x ys → All P ys → P x
  In-all P x [] h a = absurd h
  In-all P x (y ∷ ys) (inl e) a = subst P (sym e) a.0
  In-all P x (y ∷ ys) (inr h) a = In-all P x ys h a.1

  pub Within-all : (P : A → Type 0) (xs ys : List A) → Within xs ys → All P ys → All P xs
  Within-all P [] ys w a = tt
  Within-all P (x ∷ xs) ys w a = (In-all P x ys w.0 a, Within-all P xs ys w.1 a)

  pub Within-append : (xs xs' ys : List A) → Within xs ys → Within xs' ys → Within (xs ++ xs') ys
  Within-append [] xs' ys w v = v
  Within-append (x ∷ xs) xs' ys w v = (w.0, Within-append xs xs' ys w.1 v)

module _ {A : Type 0} {B : Type 0} (f : A → B) where
  In-map : (b : B) (xs : List A) → In b (map f xs) → (x : A) × In x xs × (b ≡ f x)
  In-map b [] h = absurd h
  In-map b (x ∷ xs) (inl e) = (x, inl refl, e)
  In-map b (x ∷ xs) (inr h) = let (y, k, e) = In-map b xs h in (y, inr k, e)

  -- A list within the images is the image of a list.
  pub Within-map :
      (bs : List B) (xs : List A)
      → Within bs (map f xs)
      → (ys : List A) × Within ys xs × (bs ≡ map f ys)
  Within-map [] xs w = ([], tt, refl)
  Within-map (b ∷ bs) xs w =
      let (y, h, e) = In-map b xs w.0 in
      let (ys, k, es) = Within-map bs xs w.1 in (y ∷ ys, (h, k), cc)
