-- ===== src/Prelude/Decimal.antt =====
-- Numbers as decimal text, like `%u` of printf.
use Prim.Native.Nat.{ℕ, zero, suc, ◌+◌, ◌/◌, ◌%◌}
use mathlib.Core.List.{List, [], ◌∷◌}
use audiox.Prelude.Tests.{ltb, if◌then◌else◌}

-- With one digit for each unit of fuel at most.
unfoldable pub decimal_digits : ℕ → ℕ → List ℕ → List ℕ
decimal_digits zero n after = after
decimal_digits (suc k) n after =
    let here = (48 + n % 10) ∷ after in
    let more = decimal_digits k (n / 10) here in if ltb n 10 then here else more

-- Twenty digits hold every 64-bit number.
unfoldable pub decimal : ℕ → List ℕ
decimal n = decimal_digits 20 n []
