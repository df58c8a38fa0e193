-- ===== src/Tests/HoldingsTests.antt =====
-- The theorem about src/trading/helpers/portfolio_helper.py at a concrete input.
use ml_crypto_trading.Prelude.{ℕ, List, [], ◌∷◌, ◌≡◌, arith}
use ml_crypto_trading.Prelude.Int.{pos, ◌-ℤ◌, max_ℤ}
use ml_crypto_trading.Prelude.Decimal.{zero_dec}
use ml_crypto_trading.Session.Lot.{PositionEntry}
use ml_crypto_trading.Holdings.{get_active_holdings}
use ml_crypto_trading.Holdings.Quantity.{held, traded, held-get_active_holdings}

abbrev entry : ℕ → ℕ → PositionEntry
entry quantity timestamp = record {
  price = pos 100;
  quantity = pos quantity;
  timestamp = timestamp;
}

abbrev opened : List PositionEntry
opened = entry 5 2 ∷ entry 3 1 ∷ []

abbrev closed : List PositionEntry
closed = entry 4 3 ∷ []

held-get_active_holdings_example :
    held (get_active_holdings opened closed) ≡ max_ℤ zero_dec (traded opened -ℤ traded closed)
held-get_active_holdings_example =
    held-get_active_holdings opened closed (omega arith, (omega arith, tt)) (omega arith, tt)
