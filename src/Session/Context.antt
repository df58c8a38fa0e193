-- ===== src/Session/Context.antt =====
-- api/interfaces/trading_context.py and src/trading/session/session_manager.py, `_record_buy_fill`,
-- `_record_sell_fill` and `_match_fifo_lots`. The fields of a context that hold figures of the regime
-- and the portfolio for display are left out. `Decimal('inf')` and `Decimal('-inf')` are `none`.
pub mod Settled
pub mod Profit
use ml_crypto_trading.Prelude.{ℕ, String, Option, none, some, List, [], ◌∷◌, ◌++◌, if◌then◌else◌}
use ml_crypto_trading.Prelude.Int.{ℤ, ◌+ℤ◌, ◌-ℤ◌, max_ℤ, min_ℤ, ltb_ℤ, leb_ℤ}
use ml_crypto_trading.Prelude.Decimal.{DecimalContext, zero_dec}
use ml_crypto_trading.Orders.{Order}
use ml_crypto_trading.Session.Lot.{PositionEntry, PositionLot, Trade, per_unit, create_lot}
use ml_crypto_trading.Session.Matcher.{Exit, text_or, Matched, match_lots}

pub record TradingContext : Type 0 where
  pub ticker_symbol : String
  pub exchange : String
  pub starting_balance : ℤ
  pub available_balance : ℤ
  pub closing_balance : ℤ
  pub lowest_buy : Option ℤ
  pub highest_buy : Option ℤ
  pub lowest_sell : Option ℤ
  pub highest_sell : Option ℤ
  pub open_positions : List PositionEntry
  pub close_positions : List PositionEntry
  pub position_lots : List PositionLot
  pub trades : List Trade
  pub position_qty : ℤ
  pub avg_entry_price : ℤ
  pub exit_qty : ℤ
  pub avg_exit_price : ℤ
  pub realized_pnl : ℤ
  pub last_market_activity_time : Option ℕ
  pub commit_hash : Option String
  pub regime : Option String

-- `TradingContext(...)` with `__post_init__`: the available balance starts as the starting balance.
abbrev pub new_context : String → String → ℤ → Option String → TradingContext
new_context ticker_symbol exchange starting_balance commit_hash = record {
  ticker_symbol = ticker_symbol;
  exchange = exchange;
  starting_balance = starting_balance;
  available_balance = starting_balance;
  closing_balance = zero_dec;
  lowest_buy = none;
  highest_buy = none;
  lowest_sell = none;
  highest_sell = none;
  open_positions = [];
  close_positions = [];
  position_lots = [];
  trades = [];
  position_qty = zero_dec;
  avg_entry_price = zero_dec;
  exit_qty = zero_dec;
  avg_exit_price = zero_dec;
  realized_pnl = zero_dec;
  last_market_activity_time = none;
  commit_hash = commit_hash;
  regime = none;
}

-- `min(ctx.lowest, price)` and `max(ctx.highest, price)`
abbrev pub lower : Option ℤ → ℤ → Option ℤ
lower none price = some price
lower (some a) price = some (min_ℤ a price)

abbrev pub higher : Option ℤ → ℤ → Option ℤ
higher none price = some price
higher (some a) price = some (max_ℤ a price)

-- What `record_order_fill` reads off an order.
pub record Fill : Type 0 where
  pub order : Order
  pub fill_price : ℤ
  pub quantity : ℤ
  pub fee : ℤ
  pub slippage : ℤ
  pub timestamp : ℕ

abbrev pub entry_of : Fill → PositionEntry
entry_of f = record { price = f.fill_price; quantity = f.quantity; timestamp = f.timestamp }

-- `for trade in completed_trades: ctx.realized_pnl += trade.net_pnl`
abbrev pub add_net : ℤ → List Trade → ℤ
add_net pnl [] = pnl
add_net pnl (t ∷ ts) = add_net (pnl +ℤ t.net_pnl) ts

module _ (decimals : DecimalContext) where
  open decimals use {mul, div}

  abbrev pub lot_of_fill : String → Fill → TradingContext → PositionLot
  lot_of_fill lot_id f c = create_lot decimals lot_id (record {
    order_uuid = f.order.uuid;
    ticker_symbol = f.order.ticker_symbol;
    price = f.fill_price;
    quantity = f.quantity;
    fee = f.fee;
    timestamp = f.timestamp;
    winning_strategy = f.order.winning_strategy;
    strategy_votes = f.order.strategy_votes;
    strategy_attributions = f.order.strategy_attributions;
    slippage = f.slippage;
    slippage_per_unit = none;
    regime = text_or f.order.regime c.regime;
  })

  -- The context with a lot of a buy appended, before the position is updated.
  abbrev pub with_lot : String → Fill → TradingContext → TradingContext
  with_lot lot_id f c = record c {
    lowest_buy = lower c.lowest_buy f.fill_price;
    highest_buy = higher c.highest_buy f.fill_price;
    open_positions = c.open_positions ++ entry_of f ∷ [];
    position_lots = c.position_lots ++ lot_of_fill lot_id f c ∷ [];
  }

  -- `_record_buy_fill`
  unfoldable pub record_buy_fill : String → Fill → TradingContext → TradingContext
  unfolding create_lot
  record_buy_fill lot_id f c =
      if ltb_ℤ zero_dec f.quantity
      then record (with_lot lot_id f c) {
        position_qty = c.position_qty +ℤ f.quantity;
        avg_entry_price =
            div (mul c.position_qty c.avg_entry_price +ℤ mul f.quantity f.fill_price)
              (c.position_qty +ℤ f.quantity);
      }
      else with_lot lot_id f c

  abbrev pub exit_of : Fill → TradingContext → Exit
  exit_of f c = record {
    ticker_symbol = f.order.ticker_symbol;
    exit_order_uuid = f.order.uuid;
    exit_price = f.fill_price;
    exit_quantity = f.quantity;
    exit_fee = f.fee;
    exit_timestamp = f.timestamp;
    commit_hash = text_or f.order.commit_hash c.commit_hash;
    winning_strategy = f.order.winning_strategy;
    strategy_votes = f.order.strategy_votes;
    strategy_attributions = f.order.strategy_attributions;
    exit_slippage = f.slippage;
    exit_regime = text_or f.order.regime c.regime;
  }

  -- What a sale earns beyond the lots, at the average entry price.
  abbrev pub fallback_pnl : Fill → TradingContext → ℤ → ℤ
  fallback_pnl f c sell_remaining =
      mul (f.fill_price -ℤ c.avg_entry_price) sell_remaining
      -ℤ mul (per_unit decimals f.fee f.quantity) sell_remaining
      -ℤ mul (per_unit decimals f.slippage f.quantity) sell_remaining

  -- `_match_fifo_lots` behind the call of the matcher.
  abbrev pub book_matched : Fill → Matched → TradingContext → TradingContext
  book_matched f m c =
      let pnl = add_net c.realized_pnl m.completed_trades in
      record c {
        position_lots = m.lots;
        trades = c.trades ++ m.completed_trades;
        realized_pnl =
            if ltb_ℤ zero_dec m.sell_remaining
            then pnl +ℤ fallback_pnl f c m.sell_remaining
            else pnl;
      }

  -- The context of a sale before the matching.
  abbrev pub with_exit : Fill → TradingContext → TradingContext
  with_exit f c =
      let sold = c.exit_qty +ℤ f.quantity in
      record c {
        lowest_sell = lower c.lowest_sell f.fill_price;
        highest_sell = higher c.highest_sell f.fill_price;
        close_positions = c.close_positions ++ entry_of f ∷ [];
        exit_qty = if ltb_ℤ zero_dec f.quantity then sold else c.exit_qty;
        avg_exit_price =
            if ltb_ℤ zero_dec f.quantity
            then div (mul c.exit_qty c.avg_exit_price +ℤ mul f.quantity f.fill_price) sold
            else c.avg_exit_price;
      }

  -- `ctx.position_qty = max(...)`, and the reset of the average price of an empty position.
  abbrev pub reduce_position : ℤ → TradingContext → TradingContext
  reduce_position quantity c =
      let left = max_ℤ zero_dec (c.position_qty -ℤ quantity) in
      record c {
        position_qty = left;
        avg_entry_price = if leb_ℤ left zero_dec then zero_dec else c.avg_entry_price;
      }

  abbrev pub settle : Fill → TradingContext → Option Matched → Option (TradingContext × List Trade)
  settle f c none = none
  settle f c (some m) =
      some (reduce_position f.quantity (book_matched f m (with_exit f c)), m.completed_trades)

  -- `_record_sell_fill`; `none` stands for a matcher that does not return.
  unfoldable pub record_sell_fill :
      (ℕ → String) → Fill → TradingContext → Option (TradingContext × List Trade)
  unfolding match_lots
  record_sell_fill new_id f c =
      settle f c (match_lots decimals new_id (exit_of f (with_exit f c)) c.position_lots)
