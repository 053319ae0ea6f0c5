-- ===== src/Base/Sort.antt =====
-- `sort.Slice` by a Boolean `less`, as insertion sort: Go's result is one of the orders that `less`
-- allows, and the properties below hold of this one.
use Prim.Native.Nat.{ℕ, zero, suc, ◌≤◌}
use mathlib.Core.Path.{◌≡◌, sym, subst}
use mathlib.Core.Logic.{inl, inr}
use mathlib.Core.Bool.{Bool, true, false}
use mathlib.Core.List.{List, [], ◌∷◌, Perm}
use mathlib.Core.List.Perm
use native.Mathlib.Omega.{arith}
use ecommerce_ops_agent.Base.Equality.{if◌then◌else◌}
use ecommerce_ops_agent.Base.Tests.{ltb, Bool-cases}
use ecommerce_ops_agent.Base.Lists.{All, keep, take}

module _ {ℓ} {A : Type ℓ} (less : A → A → Bool) where
  unfoldable pub place : A → List A → List A
  place a [] = a ∷ []
  place a (x ∷ xs) = if less a x then a ∷ x ∷ xs else x ∷ place a xs

  unfoldable pub sort : List A → List A
  unfolding place
  sort [] = []
  sort (x ∷ xs) = place x (sort xs)

  pub place-perm : (a : A) (xs : List A) → Perm (place a xs) (a ∷ xs)
  unfolding place
  place-perm a [] = Perm.rfl
  place-perm a (x ∷ xs) =
      elim (less a x) as (λ b. Perm (if b then a ∷ x ∷ xs else x ∷ place a xs) (a ∷ x ∷ xs)) [
        | true ↦ Perm.rfl
        | false ↦ Perm.trans (Perm.cons x (place-perm a xs)) (Perm.swap a x xs)
      ]

  pub sort-perm : (xs : List A) → Perm (sort xs) xs
  unfolding sort
  sort-perm [] = Perm.rfl
  sort-perm (x ∷ xs) = Perm.trans (place-perm x (sort xs)) (Perm.cons x (sort-perm xs))

module _ {ℓ} {A : Type ℓ} (key : A → ℕ) where
  -- Rising keys.
  abbrev pub IsSortedBy : List A → Type 0
  IsSortedBy [] = Unit
  IsSortedBy (x ∷ []) = Unit
  IsSortedBy (x ∷ y ∷ r) = (key x ≤ key y) × IsSortedBy (y ∷ r)

  abbrev pub by : A → A → Bool
  by x y = ltb (key x) (key y)

  place-IsSortedBy : (a : A) (xs : List A) → IsSortedBy xs → IsSortedBy (place by a xs)
  unfolding place
  place-IsSortedBy a [] h = tt
  place-IsSortedBy a (x ∷ []) h = ground arith
  place-IsSortedBy a (x ∷ y ∷ r) h = ground (arith, place-IsSortedBy a (y ∷ r))

  pub sort-IsSortedBy : (xs : List A) → IsSortedBy (sort by xs)
  unfolding sort
  sort-IsSortedBy [] = tt
  sort-IsSortedBy (x ∷ xs) = place-IsSortedBy x (sort by xs) (sort-IsSortedBy xs)

module _ {ℓ κ} {A : Type ℓ} (P : A → Type κ) where
  place-All : (less : A → A → Bool) (a : A) (xs : List A) → P a → All P xs → All P (place less a xs)
  unfolding place
  place-All less a [] p h = (p, tt)
  place-All less a (x ∷ xs) p h = elim (Bool-cases (less a x)) [
    | inl e ↦ rw e (p, h)
    | inr e ↦ rw e (h.0, place-All less a xs p h.1)
  ]

  pub sort-All : (less : A → A → Bool) (xs : List A) → All P xs → All P (sort less xs)
  unfolding sort
  sort-All less [] h = tt
  sort-All less (x ∷ xs) h = place-All less x (sort less xs) h.0 (sort-All less xs h.1)

  pub take-All : (n : ℕ) (xs : List A) → All P xs → All P (take n xs)
  take-All zero xs h = tt
  take-All (suc n) [] h = tt
  take-All (suc n) (x ∷ xs) h = (h.0, take-All n xs h.1)

module _ {ℓ} {A : Type ℓ} where
  pub keep-All : (p : A → Bool) (xs : List A) → All (λ a. p a ≡ true) (keep p xs)
  keep-All p [] = tt
  keep-All p (x ∷ xs) = elim (Bool-cases (p x)) [
    | inl e ↦
        subst (λ b. All (λ a. p a ≡ true) (if b then x ∷ keep p xs else keep p xs)) (sym e)
          (e, keep-All p xs)
    | inr e ↦
        subst (λ b. All (λ a. p a ≡ true) (if b then x ∷ keep p xs else keep p xs)) (sym e)
          (keep-All p xs)
  ]

  pub take-IsSortedBy :
      (key : A → ℕ) (n : ℕ) (xs : List A) → IsSortedBy key xs → IsSortedBy key (take n xs)
  take-IsSortedBy key zero xs h = tt
  take-IsSortedBy key (suc n) [] h = tt
  take-IsSortedBy key (suc zero) (x ∷ xs) h = tt
  take-IsSortedBy key (suc (suc n)) (x ∷ []) h = tt
  take-IsSortedBy key (suc (suc n)) (x ∷ y ∷ r) h = (h.0, take-IsSortedBy key (suc n) (y ∷ r) h.1)
