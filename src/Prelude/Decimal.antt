-- ===== src/Prelude/Decimal.antt =====
-- Python's `Decimal`. An amount is an integer count of a common smallest unit, so sums, differences
-- and comparisons are exact. Products and quotients are rounded by the decimal context, which the
-- application may set: they are the fields of a record that the definitions take, and nothing is
-- assumed of them.
use Prim.Native.Nat.{ℕ, ◌*◌}
use mathlib.Core.Path.{◌≡◌}
use mathlib.Core.Bool.{true, false, not}
use native.Mathlib.Omega.{arith}
use ml_crypto_trading.Prelude.Int.{ℤ, pos, ◌≤ℤ◌, ◌+ℤ◌, leb_ℤ, ltb_ℤ, max_ℤ, min_ℤ}

pub record DecimalContext : Type 0 where
  -- How many units are in 0.001.
  pub milli : ℕ
  pub mul : ℤ → ℤ → ℤ
  pub div : ℤ → ℤ → ℤ

-- `Decimal("0")`
abbrev pub zero_dec : ℤ
zero_dec = pos 0

-- The decimal with the given count of thousandths.
abbrev pub thousandths : DecimalContext → ℕ → ℤ
thousandths ctx n = pos (n * ctx.milli)

pub max_le_left : (a b : ℤ) → a ≤ℤ max_ℤ a b
unfolding max_ℤ
max_le_left a b = ground arith

pub max_of_le : (a b : ℤ) → a ≤ℤ b → max_ℤ a b ≡ b
unfolding max_ℤ
max_of_le a b h = ground arith

pub min_le_left : (a b : ℤ) → min_ℤ a b ≤ℤ a
unfolding min_ℤ
min_le_left a b = ground arith

pub min_le_right : (a b : ℤ) → min_ℤ a b ≤ℤ b
unfolding min_ℤ
min_le_right a b = ground arith

pub max_nonneg : (b : ℤ) → pos 0 ≤ℤ max_ℤ (pos 0) b
max_nonneg b = max_le_left (pos 0) b

pub max_of_nonpos : (b : ℤ) → b ≤ℤ pos 0 → max_ℤ (pos 0) b ≡ pos 0
unfolding max_ℤ
max_of_nonpos b h = ground arith

-- The Boolean tests of amounts, for `omega`.
pub leb_ℤ→le : (a b : ℤ) → leb_ℤ a b ≡ true → a ≤ℤ b
leb_ℤ→le a b h = ground arith

pub le→leb_ℤ : (a b : ℤ) → a ≤ℤ b → leb_ℤ a b ≡ true
le→leb_ℤ a b h = ground arith

pub leb_ℤ→gt : (a b : ℤ) → leb_ℤ a b ≡ false → b +ℤ pos 1 ≤ℤ a
unfolding ◌+ℤ◌
leb_ℤ→gt a b h = ground arith

pub ltb_ℤ-not : (a b : ℤ) → ltb_ℤ a b ≡ not (leb_ℤ b a)
ltb_ℤ-not a b = ground arith
