-- ===== src/Middleware/Locks/Slots.antt =====
-- Numbered slots, and sums over what stands in them.
use ecommerce_ops_agent.Base.{
  ℕ, zero, suc, ◌+◌, ◌≡◌, ◌≢◌, ◌≤◌, ◌<◌, List, [], ◌∷◌, Option, none, some, nat_eq, arith, refl, ap,
  ◌⊎◌, inl, inr,
}

zero_or_positive : (n : ℕ) → (n ≡ 0) ⊎ (0 < n)
zero_or_positive zero = inl refl
zero_or_positive (suc n) = inr (omega arith)

module _ {ℓ} {A : Type ℓ} where
  unfoldable pub get : ℕ → List A → Option A
  get i [] = none
  get zero (x ∷ xs) = some x
  get (suc i) (x ∷ xs) = get i xs

  unfoldable pub set : ℕ → A → List A → List A
  set i v [] = []
  set zero v (x ∷ xs) = v ∷ xs
  set (suc i) v (x ∷ xs) = x ∷ set i v xs

  unfoldable pub sum : (A → ℕ) → List A → ℕ
  sum f [] = 0
  sum f (x ∷ xs) = f x + sum f xs

  pub get-set_self :
      (i : ℕ) (old v : A) (xs : List A) → get i xs ≡ some old → get i (set i v xs) ≡ some v
  unfolding get set
  get-set_self i old v [] h = ground (arith, h)
  get-set_self zero old v (x ∷ xs) h = refl
  get-set_self (suc i) old v (x ∷ xs) h = get-set_self i old v xs h

  pub get-set_ne : (i j : ℕ) (v : A) (xs : List A) → j ≢ i → get j (set i v xs) ≡ get j xs
  unfolding get set
  get-set_ne i j v [] h = refl
  get-set_ne zero zero v (x ∷ xs) h = absurd (h refl)
  get-set_ne zero (suc j) v (x ∷ xs) h = refl
  get-set_ne (suc i) zero v (x ∷ xs) h = refl
  get-set_ne (suc i) (suc j) v (x ∷ xs) h = get-set_ne i j v xs (λ e. h (ap suc e))

  pub sum-set :
      (f : A → ℕ) (i : ℕ) (old v : A) (xs : List A)
      → get i xs ≡ some old
      → sum f (set i v xs) + f old ≡ sum f xs + f v
  unfolding get set sum
  sum-set f i old v [] h = ground (arith, h)
  sum-set f zero old v (x ∷ xs) h = ground (arith, h)
  sum-set f (suc i) old v (x ∷ xs) h = omega (arith, sum-set f i old v xs h)

  pub get-sum : (f : A → ℕ) (i : ℕ) (v : A) (xs : List A) → get i xs ≡ some v → f v ≤ sum f xs
  unfolding get sum
  get-sum f i v [] h = ground (arith, h)
  get-sum f zero v (x ∷ xs) h = ground (arith, h)
  get-sum f (suc i) v (x ∷ xs) h = omega (arith, get-sum f i v xs h)

  pub two-sum :
      (f : A → ℕ) (i j : ℕ) (v w : A) (xs : List A)
      → i ≢ j
      → get i xs ≡ some v
      → get j xs ≡ some w
      → f v + f w ≤ sum f xs
  unfolding get sum
  two-sum f i j v w [] differs h k = ground (arith, h)
  two-sum f zero zero v w (x ∷ xs) differs h k = absurd (differs refl)
  two-sum f zero (suc j) v w (x ∷ xs) differs h k = ground (arith, h, get-sum f j w xs k)
  two-sum f (suc i) zero v w (x ∷ xs) differs h k = ground (arith, k, get-sum f i v xs h)
  two-sum f (suc i) (suc j) v w (x ∷ xs) differs h k =
      omega (arith, two-sum f i j v w xs (λ e. differs (ap suc e)) h k)

  pub sum-get :
      (f : A → ℕ) (xs : List A) → 0 < sum f xs → (i : ℕ) × (v : A) × (get i xs ≡ some v) × (0 < f v)
  unfolding get sum
  sum-get f [] positive = absurd (omega (arith, positive))
  sum-get f (x ∷ xs) positive = elim (zero_or_positive (f x)) [
    | inr p ↦ (0, x, refl, p)
    | inl e ↦ let (i, v, h, p) = sum-get f xs (omega (arith, positive, e)) in (suc i, v, h, p)
  ]
