-- ===== src/Base/Decimal/Reading.antt =====
-- Reading back the number that a text ends with.
use Prim.Native.String.{String, ◌++◌ as ◌<>◌}
use Prim.Native.String.append.{nil, cons}
use Prim.Native.Char.{code}
use Prim.Native.Nat.{ℕ, zero, suc, ◌+◌, ◌*◌, ◌-◌, ◌/◌, ◌%◌, ◌<◌}
use mathlib.Core.Path.{◌≡◌, refl, ap, ◌∙◌}
use mathlib.Core.Logic.{inl, inr}
use mathlib.Core.Bool.{false}
use native.Mathlib.Omega.{arith}
use ecommerce_ops_agent.Base.Equality.{if◌then◌else◌}
use ecommerce_ops_agent.Base.Tests.{ltb, Bool-cases}
use ecommerce_ops_agent.Base.Decimal.{digit, digits_before, decimal}

-- A sign below the digits starts a new number.
pub reading : ℕ → String → ℕ
reading acc String.[] = acc
reading acc (String.◌∷◌ c s) =
    if ltb (code c) 48 then reading 0 s else reading (acc * 10 + (code c - 48)) s

digit_lem : (d : ℕ) → d < 10 → (ltb (code (digit d)) 48 ≡ false) × (code (digit d) - 48 ≡ d)
unfolding digit
digit_lem zero h = (refl, refl)
digit_lem (suc zero) h = (refl, refl)
digit_lem (suc (suc zero)) h = (refl, refl)
digit_lem (suc (suc (suc zero))) h = (refl, refl)
digit_lem (suc (suc (suc (suc zero)))) h = (refl, refl)
digit_lem (suc (suc (suc (suc (suc zero))))) h = (refl, refl)
digit_lem (suc (suc (suc (suc (suc (suc zero)))))) h = (refl, refl)
digit_lem (suc (suc (suc (suc (suc (suc (suc zero))))))) h = (refl, refl)
digit_lem (suc (suc (suc (suc (suc (suc (suc (suc zero)))))))) h = (refl, refl)
digit_lem (suc (suc (suc (suc (suc (suc (suc (suc (suc zero))))))))) h = (refl, refl)
digit_lem (suc (suc (suc (suc (suc (suc (suc (suc (suc (suc n)))))))))) h =
    absurd (omega (arith, h))

reading-digit :
    (acc d : ℕ) (rest : String)
    → d < 10
    → reading acc (String.◌∷◌ (digit d) rest) ≡ reading (acc * 10 + d) rest
unfolding reading
reading-digit acc d rest h = let (plain, value) = digit_lem d h in rw (reading, plain, value) refl

reading-digits :
    (fuel n : ℕ) (rest : String) → n < fuel → reading 0 (digits_before fuel n rest) ≡ reading n rest
unfolding digits_before
reading-digits zero n rest h = absurd (omega (arith, h))
reading-digits (suc fuel) n rest h = elim (Bool-cases (ltb n 10)) [
  | inl small ↦ rw small (
      reading-digit 0 (n % 10) rest (omega arith)
      ∙ ap (λ m. reading m rest) (ground (arith, small)))
  | inr big ↦ rw big (
      reading-digits fuel (n / 10) (String.◌∷◌ (digit (n % 10)) rest) (ground (arith, big, h))
      ∙ reading-digit (n / 10) (n % 10) rest (omega arith)
      ∙ ap (λ m. reading m rest) (omega arith))
]

pub reading-decimal : (n : ℕ) → reading 0 (decimal n) ≡ n
unfolding decimal reading
reading-decimal n = reading-digits (suc n) n String.[] (omega arith)

pub reading-append : (acc : ℕ) (s t : String) → reading acc (s <> t) ≡ reading (reading acc s) t
unfolding reading
reading-append acc String.[] t = ap (reading acc) (nil t)
reading-append acc (String.◌∷◌ c s) t =
    ap (reading acc) (cons c s t) ∙ elim (Bool-cases (ltb (code c) 48)) [
      | inl e ↦ rw (reading, e) (reading-append 0 s t)
      | inr e ↦ rw (reading, e) (reading-append (acc * 10 + (code c - 48)) s t)
    ]

-- What stands before the last dash does not count.
pub reading-dash : (acc : ℕ) (s t : String) → reading acc (s <> ("-" <> t)) ≡ reading 0 t
unfolding reading
reading-dash acc s t = reading-append acc s ("-" <> t) ∙ reading-append (reading acc s) "-" t

pub reading-nil : (acc : ℕ) → reading acc "" ≡ acc
unfolding reading
reading-nil acc = refl
