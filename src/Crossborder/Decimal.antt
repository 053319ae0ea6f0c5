-- ===== src/Crossborder/Decimal.antt =====
-- The `%04d` of the resource identifiers in projects/crossborder/internal/service/service.go.
use Prim.Native.String.{char_at, count}
use ecommerce_ops_agent.Base.{ℕ, zero, suc, ◌-◌, ◌≡◌, refl, String}
use ecommerce_ops_agent.Base.Decimal.{decimal}

zeros : ℕ → String → String
zeros zero s = s
zeros (suc n) s = String.◌∷◌ (char_at "0" 0) (zeros n s)

unfoldable pub four_digits : ℕ → String
unfolding zeros
four_digits n = let s = decimal n in zeros (4 - count s) s

four_digits_7 : four_digits 7 ≡ "0007"
unfolding four_digits decimal
four_digits_7 = refl

four_digits_10203 : four_digits 10203 ≡ "10203"
unfolding four_digits decimal
four_digits_10203 = refl
