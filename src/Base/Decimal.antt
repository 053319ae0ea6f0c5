-- ===== src/Base/Decimal.antt =====
-- The decimal digits of a number, as Go's `%d` prints it.
pub mod Reading
use Prim.Native.String.{String, char_at}
use Prim.Native.Char.{Char}
use Prim.Native.Nat.{ℕ, zero, suc, ◌/◌, ◌%◌}
use ecommerce_ops_agent.Base.Equality.{if◌then◌else◌}
use ecommerce_ops_agent.Base.Tests.{ltb}

digit : ℕ → Char
digit n = char_at "0123456789" n

-- The digits of a number in front of a text. A number below `fuel` needs no more rounds.
digits_before : ℕ → ℕ → String → String
unfolding digit
digits_before zero n rest = rest
digits_before (suc fuel) n rest =
    let more = digits_before fuel (n / 10) (String.◌∷◌ (digit (n % 10)) rest) in
    if ltb n 10 then String.◌∷◌ (digit (n % 10)) rest else more

unfoldable pub decimal : ℕ → String
unfolding digits_before
decimal n = digits_before (suc n) n String.[]
