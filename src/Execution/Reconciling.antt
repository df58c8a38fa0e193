-- ===== src/Execution/Reconciling.antt =====
-- src/trading/orders/order_manager.py: reconciliation of the stored orders with the exchanges,
-- cancellation and shutdown.
use ml_crypto_trading.Prelude.{
  String, Option, none, some, List, [], ◌∷◌, Bool, true, false, ◌&&◌, holds, any, select,
  if◌then◌else◌,
}
use ml_crypto_trading.Prelude.Text.{String-discrete}
use ml_crypto_trading.Prelude.Dict.{values}
use ml_crypto_trading.Prelude.Decimal.{DecimalContext}
use ml_crypto_trading.Orders.{
  Order, OrderStatus, TradeAction, buy, sell, cancelled, reconciliation_required,
}
use ml_crypto_trading.Execution.OrderTable.{get_non_terminal}
use ml_crypto_trading.Execution.Effects.{
  Error, Action, pure, raise, gets, modify, attempt, ◌>>=◌, ◌>>◌, each, runtime_error, other_error,
}
use ml_crypto_trading.Execution.State.{Services, OrderManager, Listing, is_open, call}
use ml_crypto_trading.Execution.Saving.{save_orders_to_database}

abbrev same_action : TradeAction → TradeAction → Bool
same_action buy buy = true
same_action sell sell = true
same_action _ _ = false

-- `trade_action is None or action == trade_action`
abbrev pub action_fits : Option TradeAction → TradeAction → Bool
action_fits none action = true
action_fits (some wanted) action = same_action action wanted

abbrev pub intent_fits : String → Option TradeAction → String × TradeAction → Bool
intent_fits ticker wanted intent =
    holds (String-discrete intent.0 ticker) && action_fits wanted intent.1

abbrev pub order_fits : String → Option TradeAction → Order → Bool
order_fits ticker wanted order =
    holds (String-discrete order.ticker_symbol ticker)
    && is_open order.status
    && action_fits wanted order.trade_action

-- The order, with what the exchange says of it.
abbrev pub as_on_exchange : Order → Order → Order
as_on_exchange order found = record order {
  status = found.status;
  fill_price = found.fill_price;
  fees = found.fees;
  executed_time = found.executed_time;
}

abbrev pub status_on_exchange : Option Order → Option OrderStatus
status_on_exchange none = none
status_on_exchange (some found) = found.status

abbrev pub is_registered : List String → String → Bool
is_registered names name = any (λ n. holds (String-discrete n name)) names

module _ {W : Type 0} (services : Services W) where
  open services use {
    cancel_order, get_order, get_open_orders, registered_services, unsubscribe_order_update,
    subscribe_order_update, get_unit_of_work, run_statement, complete, rollback,
  }

  abbrev pub undo_read : Error → Action (OrderManager W) (List Order)
  undo_read error s = raise error (record s { world = rollback s.world })

  abbrev pub read_orders : Action (OrderManager W) (List Order)
  read_orders = do
    call run_statement
    found ← gets (λ s. get_non_terminal s.orders)
    call complete
    pure found

  -- `_get_non_terminal_orders`
  unfoldable pub get_non_terminal_orders : Action (OrderManager W) (List Order)
  get_non_terminal_orders = do call get_unit_of_work; attempt read_orders undo_read

  -- What a `try` loads, or nothing if it fails.
  abbrev pub loaded : Action (OrderManager W) (List Order)
  loaded = attempt get_non_terminal_orders (λ error. pure [])

  -- `has_outstanding_intent`
  unfoldable pub has_outstanding_intent : String → Option TradeAction → Action (OrderManager W) Bool
  unfolding get_non_terminal_orders
  has_outstanding_intent ticker wanted = do
    held ← gets (λ s. any (intent_fits ticker wanted) (values s.in_flight_orders))
    (if held then pure true else (do orders ← loaded; pure (any (order_fits ticker wanted) orders)))

  abbrev on_fetch_error : Error → Action (OrderManager W) (List Order)
  on_fetch_error other_error = raise runtime_error
  on_fetch_error error = pure []

  -- `get_open_orders`
  unfoldable pub get_orders_at : String → Option String → Action (OrderManager W) (List Order)
  get_orders_at exchange ticker = attempt (call (get_open_orders exchange ticker)) on_fetch_error

module _ (decimals : DecimalContext) {W : Type 0} (services : Services W) where
  open services use {
    cancel_order, get_order, registered_services, unsubscribe_order_update, subscribe_order_update,
  }

  -- `_save_orders_to_database([order])` in a `try` that logs what is raised.
  abbrev pub try_save : Order → Action (OrderManager W) Unit
  try_save order =
      attempt (save_orders_to_database decimals services (order ∷ [])) (λ error. pure tt)

  -- `_mark_reconciliation_required`
  abbrev pub mark_reconciliation_required : Order → Action (OrderManager W) Unit
  mark_reconciliation_required order =
      try_save (record order { status = some reconciliation_required })

  abbrev pub match_status : Order → Order → Option OrderStatus → Action (OrderManager W) Unit
  match_status order found none = mark_reconciliation_required order
  match_status order found (some status) = try_save (as_on_exchange order found)

  abbrev pub compare : Order → Option Order → Action (OrderManager W) Unit
  compare order none = mark_reconciliation_required order
  compare order (some found) = match_status order found found.status

  abbrev pub ask_exchange : Order → Action (OrderManager W) (Option (Option Order))
  ask_exchange order =
      attempt (do found ← call (get_order order.provider_name order.uuid); pure (some found))
        (λ error. pure none)

  abbrev pub reconcile_answer : Order → Option (Option Order) → Action (OrderManager W) Unit
  reconcile_answer order none = pure tt
  reconcile_answer order (some found) = compare order found

  -- One round of the loop of `reconcile_pending_orders`.
  unfoldable pub reconcile_order : List String → Order → Action (OrderManager W) Unit
  unfolding save_orders_to_database
  reconcile_order providers order =
      if is_registered providers order.provider_name
      then (do answer ← ask_exchange order; reconcile_answer order answer)
      else pure tt

  -- `reconcile_pending_orders`
  unfoldable pub reconcile_pending_orders : Action (OrderManager W) Unit
  unfolding reconcile_order get_non_terminal_orders
  reconcile_pending_orders = do
    orders ← loaded services
    providers ← gets (λ s. registered_services s.world)
    each (reconcile_order providers) orders

  -- `_cancel_order`; the order that the error names is left out.
  unfoldable pub cancel_open_order : Order → Action (OrderManager W) Unit
  unfolding save_orders_to_database
  cancel_open_order order =
      let closed : Order = record order { status = some cancelled } in
      attempt
        (do
          call (cancel_order order.provider_name order.uuid)
          save_orders_to_database decimals services (closed ∷ []))
        (λ error. raise runtime_error)

  -- `_cancel_open_orders`
  unfoldable pub cancel_open_orders : Action (OrderManager W) Unit
  unfolding cancel_open_order get_non_terminal_orders
  cancel_open_orders = do
    orders ← loaded services
    each (λ order. attempt (cancel_open_order order) (λ error. pure tt))
        (select (λ (order : Order). is_open order.status) orders)

  -- `shutdown`; the thread that executes the orders is stopped first.
  unfoldable pub shutdown : Action (OrderManager W) Unit
  unfolding reconcile_pending_orders cancel_open_orders
  shutdown = do
    modify (λ s. record s { stopped = true })
    reconcile_pending_orders
    cancel_open_orders
    modify (λ s. record s { in_flight_orders = [] })
    listings ← gets (λ s. s.assets)
    each (λ listing. call (unsubscribe_order_update listing)) listings

  -- `initialize`
  unfoldable pub initialize : List Listing → Action (OrderManager W) Unit
  unfolding reconcile_pending_orders
  initialize listings = do
    modify (λ s. record s { assets = listings })
    each (λ listing. call (subscribe_order_update listing)) listings
    reconcile_pending_orders
