-- ===== src/Execution/Saving.antt =====
-- src/trading/orders/order_manager.py, `_save_orders_to_database`, and src/database, the unit of work
-- that a `with` block opens. A unit of work that fails leaves the stored orders as they were; the
-- trades are stored in the world.
use ml_crypto_trading.Prelude.{Option, none, some, List, [], ◌∷◌, map, if◌then◌else◌}
use ml_crypto_trading.Prelude.Int.{ℤ, ltb_ℤ}
use ml_crypto_trading.Prelude.Decimal.{DecimalContext, zero_dec}
use ml_crypto_trading.Orders.{Order, OrderStatus, completed, cancelled}
use ml_crypto_trading.Session.Lot.{Trade}
use ml_crypto_trading.Session.Context.{TradingContext}
use ml_crypto_trading.Session.Manager.{get_trading_context_by_symbol}
use ml_crypto_trading.Session.Manager.Fills.{Recorded, record_order_fill}
use ml_crypto_trading.Execution.OrderTable.{OrderTable, upsert}
use ml_crypto_trading.Execution.Effects.{
  Error, Outcome, Action, returned, raised, hanging, pure, raise, gets, modify, attempt, ◌>>=◌,
  ◌>>◌, each, other_error,
}
use ml_crypto_trading.Execution.State.{
  Services, OrderManager, OrderEvent, trade_closed, position_changed, order_filled, order_cancelled,
  is_open, publish, publish_all, pop_intent, call, with_commit_hash,
}

-- `order.fill_price if it is given and positive, else order.price`
abbrev price_paid : Option ℤ → ℤ → ℤ
price_paid none price = price
price_paid (some fill_price) price = if ltb_ℤ zero_dec fill_price then fill_price else price

abbrev position_event : Order → Option TradingContext → List OrderEvent
position_event order none = []
position_event order (some c) =
    position_changed order.ticker_symbol order.trade_action order.quantity
      (price_paid order.fill_price order.price) c.position_qty c.realized_pnl
    ∷ []

module _ {W : Type 0} where
  abbrev pub stored : Option OrderTable → Action (OrderManager W) Unit
  stored none = raise other_error
  stored (some orders) = modify (λ s. record s { orders = orders })

  -- `_in_flight_orders.pop(order.uuid, None)`, unless the order is open
  abbrev pub release_intent : Order → OrderManager W → OrderManager W
  release_intent order s = if is_open order.status then s else pop_intent order.uuid s

module _ {W : Type 0} (services : Services W) where
  open services use {
    get_unit_of_work, run_statement, upsert_trade, complete, rollback, record_fill, draw,
    head_commit,
  }

  abbrev pub undo : OrderTable → Error → Action (OrderManager W) Unit
  undo old error s = raised error (record s { orders = old; world = rollback s.world })

  -- `with self._database_manager.get_unit_of_work() as uow: ...`
  unfoldable pub unit_of_work : Action (OrderManager W) Unit → Action (OrderManager W) Unit
  unit_of_work body = do
    call get_unit_of_work
    old ← gets (λ s. s.orders)
    attempt (do body; call complete) (undo old)

  -- `order_repository.upsert(order)`
  unfoldable pub upsert_order : Order → Action (OrderManager W) Unit
  upsert_order order = do
    call run_statement
    orders ← gets (λ s. s.orders)
    stored (upsert order orders)

module _ (decimals : DecimalContext) {W : Type 0} (services : Services W) where
  open services use {upsert_trade, record_fill, draw, head_commit}

  abbrev pub recorded :
      Option Recorded → OrderManager W → Outcome (OrderManager W) (Order × List Trade)
  recorded none s = hanging
  recorded (some (m, order, trades)) s = returned (order, trades) (record s { session_manager = m })

  -- `self._session_manager.record_order_fill(order)`, with the identifiers that it draws
  unfoldable pub record_fill_of : Order → Action (OrderManager W) (Order × List Trade)
  record_fill_of order s =
      let (ids, w) = draw s.world in
      recorded (record_order_fill decimals (head_commit s.world) ids order s.session_manager)
        (record s { world = w })

  abbrev publish_fill : Order → List Trade → OrderManager W → OrderManager W
  publish_fill order trades s =
      let closed = publish_all (map (λ t. trade_closed order.ticker_symbol t) trades) s in
      let moved =
        publish_all
          (position_event order
            (get_trading_context_by_symbol order.ticker_symbol s.session_manager))
          closed in
      publish (order_filled order.ticker_symbol order) moved

  abbrev pub complete_order : Order → Action (OrderManager W) Order
  complete_order order = do
    call (record_fill order)
    (filled, trades) ← record_fill_of order
    each (λ t. call (upsert_trade t)) trades
    modify (publish_fill filled trades)
    pure filled

  abbrev pub follow_status : Option OrderStatus → Order → Action (OrderManager W) Order
  follow_status (some completed) order = complete_order order
  follow_status (some cancelled) order = do
    modify (publish (order_cancelled order.ticker_symbol order))
    pure order
  follow_status _ order = pure order

  -- One round of the loop of `_save_orders_to_database`.
  unfoldable pub save_order : Order → Action (OrderManager W) Unit
  unfolding record_fill_of
  save_order order = do
    known ← gets (with_commit_hash services order)
    modify (release_intent known)
    final ← follow_status known.status known
    upsert_order services final

  -- `_save_orders_to_database`
  unfoldable pub save_orders_to_database : List Order → Action (OrderManager W) Unit
  unfolding save_order
  save_orders_to_database orders = unit_of_work services (each save_order orders)
