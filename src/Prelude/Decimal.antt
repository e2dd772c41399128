-- ===== src/Prelude/Decimal.antt =====
-- How the program prints a number in decimal, and reads a text of digits.
use Prim.Native.Nat.{ℕ, zero, suc, ◌+◌, ◌*◌, ◌-◌, ◌/◌, ◌%◌}
use treeman.Prelude.Int.{ℤ, pos, negsuc}
use mathlib.Core.List.{[], ◌∷◌}
use treeman.Prelude.Tests.{ltb, if◌then◌else◌}
use treeman.Prelude.Text.{Bytes}

-- The digits before those of `out`; each round takes the last digit off.
unfoldable pub digits : ℕ → ℕ → Bytes → Bytes
digits zero n out = out
digits (suc f) n out =
    let more = digits f (n / 10) ((b'0' + n % 10) ∷ out) in
    if ltb n 10 then (b'0' + n) ∷ out else more

-- A number has at most as many digits as one more than itself.
unfoldable pub decimal : ℕ → Bytes
unfolding digits
decimal n = digits (suc n) n []

-- `strconv.Itoa`.
unfoldable pub itoa : ℤ → Bytes
unfolding decimal
itoa (pos n) = decimal n
itoa (negsuc n) = b'-' ∷ decimal (n + 1)

-- The number that a text of digits stands for.
unfoldable pub number : ℕ → Bytes → ℕ
number n [] = n
number n (c ∷ s) = number (n * 10 + (c - b'0')) s
