-- ===== src/Session/Manager/Fills/Sound.antt =====
-- src/trading/session/session_manager.py: the sessions that `record_order_fill` leaves.
use ml_crypto_trading.Prelude.{
  ℕ, ℕ_discrete, String, Option, none, some, List, true, arith, ◌≡◌, refl, ap,
}
use ml_crypto_trading.Prelude.Dict.{insert-IsValid}
use ml_crypto_trading.Prelude.Int.{ltb_ℤ}
use ml_crypto_trading.Prelude.Decimal.{DecimalContext, zero_dec}
use ml_crypto_trading.Orders.{Order, TradeAction, buy, sell}
use ml_crypto_trading.Session.Lot.{Trade}
use ml_crypto_trading.Session.Context.{TradingContext, Fill}
use ml_crypto_trading.Session.Context.Settled.{
  IsSettled, record_buy_fill-IsSettled, record_sell_fill-IsSettled,
}
use ml_crypto_trading.Session.Manager.{SessionManager, TradingSession, contexts_of, find_context}
use ml_crypto_trading.Session.Manager.Fills.{
  Identifiers, Recorded, fill_in, fill_found, store, fill_of, fill_context,
}
use ml_crypto_trading.Session.Manager.Sound.{AreSettled, IsSound, find_context-IsSettled}

module _ (decimals : DecimalContext) where
  fill_context-IsSettled :
      (action : TradeAction) (ids : Identifiers) (f : Fill) (c : TradingContext)
      → ltb_ℤ zero_dec f.quantity ≡ true
      → IsSettled c
      → (r : TradingContext × List Trade) × (fill_context decimals action ids f c ≡ some r)
        × IsSettled r.0
  unfolding fill_context
  fill_context-IsSettled buy ids f c h s =
      (_, refl, record_buy_fill-IsSettled decimals ids.lot_id f c h s)
  fill_context-IsSettled sell ids f c h s =
      record_sell_fill-IsSettled decimals ids.trade_ids f c (ground arith) s

  fill_found-IsSound :
      (head : Option String) (ids : Identifiers) (order : Order) (x : TradingSession)
      (found : Option (ℕ × TradingContext)) (m : SessionManager)
      → ltb_ℤ zero_dec order.quantity ≡ true
      → IsSound m
      → AreSettled x.trading_contexts
      → find_context order.ticker_symbol x.trading_contexts ≡ found
      → (r : Recorded) × (fill_found decimals head ids order x found m ≡ some r) × IsSound r.0
  fill_found-IsSound head ids order x none m p s h e = (_, refl, s)
  fill_found-IsSound head ids order x (some (k, c)) m p s h e =
      let t = find_context-IsSettled order.ticker_symbol x.trading_contexts h k c e in
      let f = fill_of head order c m in
      let active : TradingContext = record c { last_market_activity_time = some f.timestamp } in
      let (r, e, settled) =
        fill_context-IsSettled order.trade_action ids f active p
          (record { lots_open = t.lots_open; position = t.position }) in
      (
        _,
        ap (store decimals k f.order x m) e,
        record {
          running = λ e. refl;
          settled =
              insert-IsValid ℕ_discrete (λ k c. IsSettled c) k r.0 x.trading_contexts settled h;
        },
      )

  pub fill_in-IsSound :
      (head : Option String) (ids : Identifiers) (order : Order) (o : Option TradingSession)
      (m : SessionManager)
      → ltb_ℤ zero_dec order.quantity ≡ true
      → IsSound m
      → AreSettled (contexts_of o)
      → (r : Recorded) × (fill_in decimals head ids order o m ≡ some r) × IsSound r.0
  fill_in-IsSound head ids order none m p s h = (_, refl, s)
  fill_in-IsSound head ids order (some x) m p s h =
      fill_found-IsSound head ids order x _ m p s h refl
