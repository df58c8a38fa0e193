-- ===== src/Prelude/Rounding.antt =====
-- Python's rounding of a quotient to a whole number.
use Prim.Native.Nat.{ℕ, ◌+◌, ◌*◌, ◌/◌, ◌%◌}
use ml_crypto_trading.Prelude.Tests.{ltb, if◌then◌else◌}

-- `round(a / b)`: half to even.
abbrev pub round_half_even : ℕ → ℕ → ℕ
round_half_even a b =
    let q = a / b in
    let twice = 2 * (a % b) in if ltb twice b then q else if ltb b twice then q + 1 else q + q % 2
