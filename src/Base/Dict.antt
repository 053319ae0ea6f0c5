-- ===== src/Base/Dict.antt =====
-- Go's maps as association lists. A write replaces the entry of its key or adds one.
use ecommerce_ops_agent.Base.Equality.{Eq, ◌==◌, if◌then◌else◌}
use ecommerce_ops_agent.Base.Lists.{All, length}
use ecommerce_ops_agent.Base.Int.{ℤ, pos, pos_part, neg_part, ◌+ℤ◌, int_laws}
use Prim.Native.Nat.{◌+◌, ◌≤◌}
use mathlib.Core.Path.{subst, ◌≡◌, refl, ap}
use mathlib.Core.Logic.{◌≢◌, if_pos, if_neg}
use mathlib.Core.Option.{Option, none, some}
use mathlib.Core.List.{List, [], ◌∷◌}
use native.Mathlib.Omega.{arith}

abbrev pub Dict {ℓ κ} : Type ℓ → Type κ → Type (ℓ ⊔ κ)
Dict K V = List (K × V)

abbrev pub values {ℓ κ} : {K : Type ℓ} {V : Type κ} → Dict K V → List V
values [] = []
values ((_, v) ∷ d) = v ∷ values d

abbrev pub map_values {ℓ κ} : {K : Type ℓ} {V : Type κ} → (V → V) → Dict K V → Dict K V
map_values f [] = []
map_values f ((k, v) ∷ d) = (k, f v) ∷ map_values f d

abbrev pub changed {κ} : {V : Type κ} → (V → V) → Option V → Option V
changed f none = none
changed f (some v) = some (f v)

abbrev pub measure {κ} : {V : Type κ} → (V → ℤ) → Option V → ℤ
measure f none = pos 0
measure f (some w) = f w

module _ {ℓ κ} {K : Type ℓ} {V : Type κ} ⦃e : Eq K⦄ where
  unfoldable pub lookup : K → Dict K V → Option V
  lookup k [] = none
  lookup k ((j, w) ∷ d) = if k == j then some w else lookup k d

  -- `d[k] = v`
  unfoldable pub insert : K → V → Dict K V → Dict K V
  insert k v [] = (k, v) ∷ []
  insert k v ((j, w) ∷ d) = if k == j then (k, v) ∷ d else (j, w) ∷ insert k v d

  -- `delete(d, k)`. Every entry of the key goes; a real map has at most one.
  unfoldable pub erase : K → Dict K V → Dict K V
  erase k [] = []
  erase k ((j, w) ∷ d) = let rest = erase k d in if k == j then rest else (j, w) ∷ rest

  pub lookup-insert :
      (j k : K) (v : V) (d : Dict K V)
      → lookup j (insert k v d) ≡ (if j == k then some v else lookup j d)
  unfolding insert lookup
  lookup-insert j k v [] = refl
  lookup-insert j k v (_ ∷ d) = ground (arith, lookup-insert j k v d)

  pub lookup-insert_self : (k : K) (v : V) (d : Dict K V) → lookup k (insert k v d) ≡ some v
  lookup-insert_self k v d = ground (arith, lookup-insert k k v d)

  pub lookup-insert_ne :
      (j k : K) (v : V) (d : Dict K V) → j ≢ k → lookup j (insert k v d) ≡ lookup j d
  lookup-insert_ne j k v d h = ground (arith, lookup-insert j k v d)

  pub lookup-erase :
      (j k : K) (d : Dict K V) → lookup j (erase k d) ≡ (if j == k then none else lookup j d)
  unfolding erase lookup
  lookup-erase j k [] = ground arith
  lookup-erase j k (_ ∷ d) = ground (arith, lookup-erase j k d)

  pub lookup-map_values :
      (f : V → V) (k : K) (d : Dict K V) → lookup k (map_values f d) ≡ changed f (lookup k d)
  unfolding lookup
  lookup-map_values f k [] = refl
  lookup-map_values f k (_ ∷ d) = ground (arith, lookup-map_values f k d)

  -- What holds of every value holds of the one that is found.
  pub lookup-All {ν} :
      (P : V → Type ν) (k : K) (v : V) (d : Dict K V) → All P (values d) → lookup k d ≡ some v → P v
  unfolding lookup
  lookup-All P k v [] all found = ground (arith, found)
  lookup-All P k v ((j, w) ∷ d) (here, there) found = elim (e.dec k j) [
    | yes same ↦ subst P (ground (arith, found, same)) here
    | no other ↦ lookup-All P k v d there (ground (arith, found, other))
  ]

  pub length-insert : (k : K) (v : V) (d : Dict K V) → length d ≤ length (insert k v d)
  unfolding insert
  length-insert k v [] = omega arith
  length-insert k v (_ ∷ d) = ground (arith, length-insert k v d)

  pub length-insert_new :
      (k : K) (v : V) (d : Dict K V) → lookup k d ≡ none → length (insert k v d) ≡ length d + 1
  unfolding insert lookup
  length-insert_new k v [] h = omega arith
  length-insert_new k v (_ ∷ d) h = ground (arith, length-insert_new k v d)

  -- The sum of a measure over the values, and how a write moves it.
  unfoldable pub total : (V → ℤ) → Dict K V → ℤ
  total f [] = pos 0
  total f ((_, w) ∷ d) = f w +ℤ total f d

  pub total-insert :
      (f : V → ℤ) (k : K) (v : V) (d : Dict K V)
      → total f (insert k v d) +ℤ measure f (lookup k d) ≡ total f d +ℤ f v
  unfolding insert lookup total
  total-insert f k v [] = omega int_laws
  total-insert f k v ((j, w) ∷ d) = elim (e.dec k j) [
    | yes same ↦ rw (if_pos _ same) (omega int_laws)
    | no other ↦
        rw (if_neg _ other)
          (omega (int_laws, ap pos_part (total-insert f k v d), ap neg_part (total-insert f k v d)))
  ]
