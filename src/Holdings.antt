-- ===== src/Holdings.antt =====
-- src/trading/helpers/portfolio_helper.py: what is held of the positions that were opened and closed,
-- its value, and the highest and lowest value on the way. `none` stands for the ValueError of a
-- starting balance that is not positive.
pub mod Quantity
use ml_crypto_trading.Prelude.{
  ℕ, Bool, true, false, Option, none, some, List, [], ◌∷◌, ◌++◌, map, select, leb, if◌then◌else◌,
}
use ml_crypto_trading.Prelude.Int.{ℤ, ◌+ℤ◌, ◌-ℤ◌, ltb_ℤ, leb_ℤ}
use ml_crypto_trading.Prelude.Decimal.{DecimalContext, zero_dec}
use ml_crypto_trading.Session.Lot.{PositionEntry}

-- `sorted(positions, key=lambda x: x.timestamp)`, which is stable.
abbrev pub insert_by_time : PositionEntry → List PositionEntry → List PositionEntry
insert_by_time x [] = x ∷ []
insert_by_time x (y ∷ ys) =
    let rest = insert_by_time x ys in if leb x.timestamp y.timestamp then x ∷ y ∷ ys else y ∷ rest

abbrev pub sort_by_time : List PositionEntry → List PositionEntry
sort_by_time [] = []
sort_by_time (x ∷ xs) = insert_by_time x (sort_by_time xs)

-- A price and a quantity.
abbrev pub Holding : Type 0
Holding = ℤ × ℤ

abbrev pub holding_of : PositionEntry → Holding
holding_of b = (b.price, b.quantity)

-- The loop over the inventory for one sale.
abbrev pub sell_from : ℤ → List Holding → List Holding
sell_from sell_qty [] = []
sell_from sell_qty ((price, qty) ∷ inventory) =
    let rest = sell_from (sell_qty -ℤ qty) inventory in
    if ltb_ℤ zero_dec sell_qty
    then (if leb_ℤ qty sell_qty then rest else (price, qty -ℤ sell_qty) ∷ inventory)
    else (price, qty) ∷ inventory

abbrev pub sell_all : List PositionEntry → List Holding → List Holding
sell_all [] inventory = inventory
sell_all (s ∷ sells) inventory = sell_all sells (sell_from s.quantity inventory)

-- `_get_active_holdings`
unfoldable pub get_active_holdings : List PositionEntry → List PositionEntry → List Holding
get_active_holdings open_positions close_positions =
    select (λ (h : Holding). ltb_ℤ zero_dec h.1)
      (sell_all (sort_by_time close_positions) (map holding_of (sort_by_time open_positions)))

module _ (decimals : DecimalContext) where
  open decimals use {mul}

  abbrev add_values : ℤ → List Holding → ℤ → ℤ
  add_values current_price [] value = value
  add_values current_price (h ∷ holdings) value =
      add_values current_price holdings (value +ℤ mul current_price h.1)

  -- `calculate_portfolio_value`
  unfoldable pub calculate_portfolio_value : ℤ → ℤ → List PositionEntry → List PositionEntry → ℤ
  unfolding get_active_holdings
  calculate_portfolio_value available_balance current_price opened closed =
      add_values current_price (get_active_holdings opened closed) available_balance

  abbrev add_gains : ℤ → List Holding → ℤ → ℤ
  add_gains current_price [] gain = gain
  add_gains current_price (h ∷ holdings) gain =
      add_gains current_price holdings (gain +ℤ mul (current_price -ℤ h.0) h.1)

  -- `calculate_unrealized_pnl_value`
  unfoldable pub calculate_unrealized_pnl_value :
      ℤ → ℤ → List PositionEntry → List PositionEntry → Option ℤ
  unfolding get_active_holdings
  calculate_unrealized_pnl_value starting_balance current_price opened closed =
      if leb_ℤ starting_balance zero_dec
      then none
      else some (add_gains current_price (get_active_holdings opened closed) zero_dec)

-- `all_trades`, which are sorted by their times; the flag tells a buy.
abbrev pub Move : Type 0
Move = PositionEntry × Bool

abbrev pub insert_move : Move → List Move → List Move
insert_move x [] = x ∷ []
insert_move x (y ∷ ys) =
    let rest = insert_move x ys in if leb x.0.timestamp y.0.timestamp then x ∷ y ∷ ys else y ∷ rest

abbrev pub sort_moves : List Move → List Move
sort_moves [] = []
sort_moves (x ∷ xs) = insert_move x (sort_moves xs)

abbrev pub all_trades : List PositionEntry → List PositionEntry → List Move
all_trades opened closed = sort_moves (map (λ p. (p, true)) opened ++ map (λ p. (p, false)) closed)

module _ (decimals : DecimalContext) where
  open decimals use {mul}

  abbrev pub value_after : Move → ℤ → ℤ
  value_after (trade, is_buy) value =
      let trade_amount = mul trade.price trade.quantity in
      if is_buy then value -ℤ trade_amount else value +ℤ trade_amount

  -- The loop of `calculate_peak_value` and that of `calculate_trough_value`; `beyond` tells whether a
  -- value is a new extreme. They end early when nothing is left.
  abbrev pub extreme : (ℤ → ℤ → Bool) → List Move → ℤ → ℤ × Option ℕ → ℤ × Option ℕ
  extreme beyond [] value best = best
  extreme beyond (t ∷ moves) value best =
      let value' = value_after t value in
      let best' = if beyond value' best.0 then (value', some t.0.timestamp) else best in
      let rest = extreme beyond moves value' best' in if leb_ℤ value' zero_dec then best' else rest

  -- `calculate_peak_value`
  unfoldable pub calculate_peak_value :
      ℤ → List PositionEntry → List PositionEntry → Option (ℤ × Option ℕ)
  calculate_peak_value starting_balance opened closed =
      if leb_ℤ starting_balance zero_dec
      then none
      else some (
          extreme (λ value best. ltb_ℤ best value) (all_trades opened closed) starting_balance
            (starting_balance, none))

  -- `calculate_trough_value`
  unfoldable pub calculate_trough_value : ℤ → List PositionEntry → List PositionEntry → ℤ × Option ℕ
  calculate_trough_value starting_balance opened closed =
      extreme (λ value best. ltb_ℤ value best) (all_trades opened closed) starting_balance
        (starting_balance, none)
