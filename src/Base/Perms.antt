-- ===== src/Base/Perms.antt =====
-- Rearrangements of a list, as the library's `Permᴰ`, through predicates, filters and maps.
use mathlib.Core.Path.{◌≡◌, refl, sym, subst, ap, ◌∙◌}
use mathlib.Core.Bool.{Bool, true, false}
use mathlib.Core.List.{List, [], ◌∷◌, map, Permᴰ}
use mathlib.Core.Logic.{inl, inr, ◌⊎◌}
use public_pg2mongo_cd_c.Base.Tests.{Bool-cases}
use public_pg2mongo_cd_c.Base.Lists.{All, filter, length}
use Prim.Native.Nat.{suc}

module _ {ℓ} {A : Type ℓ} where
  pub perm-All {κ} : (P : A → Type κ) {xs ys : List A} → Permᴰ xs ys → All P ys → All P xs
  perm-All P Permᴰ.nil a = tt
  perm-All P (Permᴰ.cons e p) a = (subst P (sym e) a.0, perm-All P p a.1)
  perm-All P (Permᴰ.swap e f) a = (subst P (sym e) a.1.0, (subst P (sym f) a.0, a.1.1))
  perm-All P (Permᴰ.trans p q) a = perm-All P p (perm-All P q a)

  pub perm-refl : (xs : List A) → Permᴰ xs xs
  perm-refl [] = Permᴰ.nil
  perm-refl (x ∷ xs) = Permᴰ.cons refl (perm-refl xs)

  pub length-perm : {xs ys : List A} → Permᴰ xs ys → length xs ≡ length ys
  length-perm Permᴰ.nil = refl
  length-perm (Permᴰ.cons e p) = ap suc (length-perm p)
  length-perm (Permᴰ.swap e f) = refl
  length-perm (Permᴰ.trans p q) = length-perm p ∙ length-perm q

  pub perm-eq-nil : {xs ys : List A} → Permᴰ xs ys → ys ≡ [] → xs ≡ []
  perm-eq-nil Permᴰ.nil h = refl
  perm-eq-nil (Permᴰ.cons e p) h = cc
  perm-eq-nil (Permᴰ.swap e f) h = cc
  perm-eq-nil (Permᴰ.trans p q) h = perm-eq-nil p (perm-eq-nil q h)

  pub perm-filter :
      (t : A → Bool) {xs ys : List A} → Permᴰ xs ys → Permᴰ (filter t xs) (filter t ys)
  perm-filter t Permᴰ.nil = Permᴰ.nil
  perm-filter t (Permᴰ.cons {a = a} {b = b} e p) = elim (Bool-cases (t b)) [
    | inl h ↦ rw (ap t e ∙ h, h) (Permᴰ.cons e (perm-filter t p))
    | inr h ↦ rw (ap t e ∙ h, h) (perm-filter t p)
  ]
  perm-filter t (Permᴰ.swap {a = a} {b = b} {l = l} e f) =
      rw (← e, ← f) (swapped (Bool-cases (t a)) (Bool-cases (t b)))
    where
      swapped :
          (t a ≡ true) ⊎ (t a ≡ false)
          → (t b ≡ true) ⊎ (t b ≡ false)
          → Permᴰ (filter t (a ∷ b ∷ l)) (filter t (b ∷ a ∷ l))
      swapped (inl h) (inl k) = rw (h, k) (Permᴰ.swap refl refl)
      swapped (inl h) (inr k) = rw (h, k) (Permᴰ.cons refl (perm-refl (filter t l)))
      swapped (inr h) (inl k) = rw (h, k) (Permᴰ.cons refl (perm-refl (filter t l)))
      swapped (inr h) (inr k) = rw (h, k) (perm-refl (filter t l))
  perm-filter t (Permᴰ.trans p q) = Permᴰ.trans (perm-filter t p) (perm-filter t q)

-- A rearrangement of images is the image of a rearrangement.
pub perm-map_inv {ℓ κ} :
    {A : Type ℓ} {B : Type κ} (f : A → B) {ms ns : List B}
    → Permᴰ ms ns
    → (xs : List A) → ns ≡ map f xs
    → (ys : List A) × Permᴰ ys xs × (ms ≡ map f ys)
perm-map_inv f Permᴰ.nil [] h = ([], Permᴰ.nil, refl)
perm-map_inv f Permᴰ.nil (x ∷ xs) h = cc
perm-map_inv f (Permᴰ.cons e p) [] h = cc
perm-map_inv f (Permᴰ.cons e p) (x ∷ xs) h =
    let (ys, q, k) = perm-map_inv f p xs (cc) in (x ∷ ys, Permᴰ.cons refl q, cc)
perm-map_inv f (Permᴰ.swap e g) [] h = cc
perm-map_inv f (Permᴰ.swap e g) (x ∷ []) h = cc
perm-map_inv f (Permᴰ.swap e g) (x ∷ y ∷ xs) h = (y ∷ x ∷ xs, Permᴰ.swap refl refl, cc)
perm-map_inv f (Permᴰ.trans p q) xs h =
    let (ys, q', k) = perm-map_inv f q xs h in
    let (zs, p', l) = perm-map_inv f p ys k in (zs, Permᴰ.trans p' q', l)
