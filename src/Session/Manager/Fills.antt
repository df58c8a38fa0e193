-- ===== src/Session/Manager/Fills.antt =====
-- src/trading/session/session_manager.py: `record_order_fill`.
pub mod Sound
pub mod Named
use ml_crypto_trading.Prelude.{
  ℕ, ℕ_discrete, String, Option, none, some, List, [], or_else, if◌then◌else◌,
}
use ml_crypto_trading.Prelude.Dict.{insert}
use ml_crypto_trading.Prelude.Int.{ℤ, ltb_ℤ}
use ml_crypto_trading.Prelude.Decimal.{DecimalContext, zero_dec}
use ml_crypto_trading.Orders.{Order, TradeAction, buy, sell}
use ml_crypto_trading.Session.Lot.{Trade}
use ml_crypto_trading.Session.Matcher.{text_or}
use ml_crypto_trading.Session.Context.{TradingContext, Fill, record_buy_fill, record_sell_fill}
use ml_crypto_trading.Session.Manager.{
  SessionManager, TradingSession, set_contexts, get_current_commit_hash, find_context,
}

-- `order.fill_price if it is given and positive, else order.price`
abbrev price_of_fill : Option ℤ → ℤ → ℤ
price_of_fill none price = price
price_of_fill (some fill_price) price = if ltb_ℤ zero_dec fill_price then fill_price else price

-- What `record_order_fill` reads off an order of a context, with the order's hash filled in.
abbrev pub fill_of : Option String → Order → TradingContext → SessionManager → Fill
fill_of head order c m = record {
  order = record order {
    commit_hash =
        text_or order.commit_hash (text_or c.commit_hash (some (get_current_commit_hash head m)));
  };
  fill_price = price_of_fill order.fill_price order.price;
  quantity = order.quantity;
  fee = or_else order.fees zero_dec;
  slippage = or_else order.slippage zero_dec;
  timestamp = or_else order.executed_time order.created_time;
}

-- The identifiers that are drawn while an order is recorded: of the lot and of the trades.
pub record Identifiers : Type 0 where
  pub lot_id : String
  pub trade_ids : ℕ → String

abbrev pub Recorded : Type 0
Recorded = SessionManager × Order × List Trade

module _ (decimals : DecimalContext) where
  unfoldable pub fill_context :
      TradeAction → Identifiers → Fill → TradingContext → Option (TradingContext × List Trade)
  unfolding record_buy_fill record_sell_fill
  fill_context buy ids f c = some (record_buy_fill decimals ids.lot_id f c, [])
  fill_context sell ids f c = record_sell_fill decimals ids.trade_ids f c

  abbrev pub store :
      ℕ
      → Order
      → TradingSession
      → SessionManager
      → Option (TradingContext × List Trade)
      → Option Recorded
  store k order s m none = none
  store k order s m (some (c, trades)) =
      some (set_contexts (insert ℕ_discrete k c s.trading_contexts) s m, order, trades)

  abbrev pub fill_found :
      Option String
      → Identifiers
      → Order
      → TradingSession
      → Option (ℕ × TradingContext)
      → SessionManager
      → Option Recorded
  fill_found head ids order s none m = some (m, order, [])
  fill_found head ids order s (some (k, c)) m =
      let f = fill_of head order c m in
      store k f.order s m (
        fill_context order.trade_action ids f
          (record c { last_market_activity_time = some f.timestamp }))

  abbrev pub fill_in :
      Option String → Identifiers → Order → Option TradingSession → SessionManager → Option Recorded
  fill_in head ids order none m = some (m, order, [])
  fill_in head ids order (some s) m =
      fill_found head ids order s (find_context order.ticker_symbol s.trading_contexts) m

  -- `record_order_fill`: the manager, the order with its commit hash, and the completed trades; `none`
  -- stands for a matcher that does not return.
  unfoldable pub record_order_fill :
      Option String → Identifiers → Order → SessionManager → Option Recorded
  unfolding fill_context
  record_order_fill head ids order m = fill_in head ids order m.current_session m
