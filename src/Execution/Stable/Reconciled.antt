-- ===== src/Execution/Stable/Reconciled.antt =====
-- src/trading/orders/order_manager.py: properties that reconciliation, cancellation and shutdown keep.
use ml_crypto_trading.Prelude.{
  String, Option, none, some, List, [], ◌∷◌, Bool, true, All, select, if_cases,
}
use ml_crypto_trading.Prelude.Decimal.{DecimalContext}
use ml_crypto_trading.Orders.{Order, OrderStatus, cancelled}
use ml_crypto_trading.Execution.OrderTable.{OrderTable, get_non_terminal}
use ml_crypto_trading.Execution.Effects.{Error}
use ml_crypto_trading.Execution.Effects.Ends.{
  raises, Keeps, pure-Keeps, raise-Keeps, gets-Keeps, modify-Keeps, bind-Keeps, attempt-Keeps,
  each-Keeps, each_any-Keeps, relax-Keeps,
}
use ml_crypto_trading.Execution.State.{Services, OrderManager, Listing}
use ml_crypto_trading.Execution.Reconciling.{
  as_on_exchange, is_registered, undo_read, read_orders, get_non_terminal_orders, loaded, try_save,
  match_status, compare, ask_exchange, reconcile_answer, reconcile_order, reconcile_pending_orders,
  cancel_open_order, cancel_open_orders, shutdown, initialize,
}
use ml_crypto_trading.Execution.Stable.{Any, IsFramed, call-Keeps}
use ml_crypto_trading.Execution.Stable.Saved.{IsRecording, save_orders_to_database-Keeps}
use ml_crypto_trading.Execution.Stable.Placed.{Nothing}

-- The orders that are loaded are in `G`, and an order in `G` stays in it when its status changes.
pub record IsReconciling {W : Type 0} (P : OrderManager W → Type 0) (G : Order → Type 0)
    : Type 0 where
  pub load : (s : OrderManager W) → P s → All G (get_non_terminal s.orders)
  pub update : (order found : Order) → G order → G (as_on_exchange order found)
  pub restatus :
      (order : Order) (status : Option OrderStatus) → G order → G (record order { status = status })

select-All :
    (G : Order → Type 0) (p : Order → Bool) (orders : List Order)
    → All G orders
    → All G (select p orders)
select-All G p [] h = tt
select-All G p (order ∷ orders) h =
    if_cases (All G) (p order) (λ e. (h.0, select-All G p orders h.1))
      (λ e. select-All G p orders h.1)

module _ (decimals : DecimalContext) {W : Type 0} (services : Services W)
    {P : OrderManager W → Type 0} {Admits : OrderTable → Type 0} {G : Order → Type 0}
    (framed : IsFramed P Admits G) (recording : IsRecording decimals P G)
    (reconciling : IsReconciling P G) where
  read_orders-Keeps : Keeps P (All G) Any (read_orders services)
  read_orders-Keeps = bind-Keeps _ (call-Keeps framed _) (λ u q.
      bind-Keeps {Q = All G} _ (gets-Keeps _ reconciling.load)
        (λ found h. bind-Keeps _ (call-Keeps framed _) (λ u q. pure-Keeps _ h)))

  undo_read-Keeps : (error : Error) → Keeps P (All G) Any (undo_read services error)
  undo_read-Keeps error = record {
    at = λ s p. raises (tt, framed.world s (services.rollback s.world) p);
  }

  pub loaded-Keeps : Keeps P (All G) Nothing (loaded services)
  unfolding get_non_terminal_orders
  loaded-Keeps =
      attempt-Keeps {R = Any} _
        (bind-Keeps _ (call-Keeps framed _)
          (λ u q. attempt-Keeps {R = Any} _ read_orders-Keeps (λ error r. undo_read-Keeps error)))
        (λ error r. pure-Keeps [] tt)

  try_save-Keeps :
      (order : Order) → G order → Keeps P (λ u. Unit) Nothing (try_save decimals services order)
  try_save-Keeps order g =
      attempt-Keeps {R = Any} _
        (save_orders_to_database-Keeps decimals services framed recording (order ∷ []) (g, tt))
        (λ error r. pure-Keeps tt tt)

  match_status-Keeps :
      (order found : Order) (status : Option OrderStatus)
      → G order
      → Keeps P (λ u. Unit) Nothing (match_status decimals services order found status)
  match_status-Keeps order found none g = try_save-Keeps _ (reconciling.restatus order _ g)
  match_status-Keeps order found (some status) g =
      try_save-Keeps _ (reconciling.update order found g)

  compare-Keeps :
      (order : Order) (o : Option Order)
      → G order
      → Keeps P (λ u. Unit) Nothing (compare decimals services order o)
  compare-Keeps order none g = try_save-Keeps _ (reconciling.restatus order _ g)
  compare-Keeps order (some found) g = match_status-Keeps order found found.status g

  reconcile_answer-Keeps :
      (order : Order) (answer : Option (Option Order))
      → G order
      → Keeps P (λ u. Unit) Nothing (reconcile_answer decimals services order answer)
  reconcile_answer-Keeps order none g = pure-Keeps tt tt
  reconcile_answer-Keeps order (some found) g = compare-Keeps order found g

  ask_exchange-Keeps :
      (order : Order) → Keeps P (λ a. Unit) Nothing (ask_exchange decimals services order)
  ask_exchange-Keeps order =
      attempt-Keeps {R = Any} _ (bind-Keeps _ (call-Keeps framed _) (λ found q. pure-Keeps _ tt))
        (λ error r. pure-Keeps _ tt)

  reconcile_order-Keeps :
      (providers : List String) (order : Order)
      → G order
      → Keeps P (λ u. Unit) Nothing (reconcile_order decimals services providers order)
  unfolding reconcile_order
  reconcile_order-Keeps providers order g =
      if_cases (Keeps P (λ u. Unit) Nothing) (is_registered providers order.provider_name)
        (λ e.
          bind-Keeps _ (ask_exchange-Keeps order)
            (λ answer q. reconcile_answer-Keeps order answer g))
        (λ e. pure-Keeps tt tt)

  pub reconcile_pending_orders-Keeps :
      Keeps P (λ u. Unit) Nothing (reconcile_pending_orders decimals services)
  unfolding reconcile_pending_orders
  reconcile_pending_orders-Keeps = bind-Keeps _ loaded-Keeps (λ orders h.
      bind-Keeps {Q = λ (names : List String). Unit} _ (gets-Keeps _ (λ s p. tt))
        (λ providers q. each-Keeps _ G orders (reconcile_order-Keeps providers) h))

  cancel_open_order-Keeps :
      (order : Order)
      → G order
      → Keeps P (λ u. Unit) Any (cancel_open_order decimals services order)
  unfolding cancel_open_order
  cancel_open_order-Keeps order g =
      attempt-Keeps {R = Any} _
        (bind-Keeps _ (call-Keeps framed _) (λ u q.
          save_orders_to_database-Keeps decimals services framed recording _
            (reconciling.restatus order (some cancelled) g, tt)))
        (λ error r. raise-Keeps _ tt)

  pub cancel_open_orders-Keeps : Keeps P (λ u. Unit) Nothing (cancel_open_orders decimals services)
  unfolding cancel_open_orders
  cancel_open_orders-Keeps = bind-Keeps _ loaded-Keeps (λ orders h.
      each-Keeps _ G _
        (λ order g.
          attempt-Keeps {R = Any} _ (cancel_open_order-Keeps order g) (λ error r. pure-Keeps tt tt))
        (select-All G _ orders h))

  pub shutdown-Keeps :
      ((s : OrderManager W) → P s → P (record s { stopped = true }))
      → ((s : OrderManager W) → P s → P (record s { in_flight_orders = [] }))
      → Keeps P (λ u. Unit) Any (shutdown decimals services)
  unfolding shutdown
  shutdown-Keeps stop clear = bind-Keeps _ (modify-Keeps _ stop) (λ u q.
      bind-Keeps _ (relax-Keeps (λ e r. tt) reconcile_pending_orders-Keeps) (λ u q.
        bind-Keeps _ (relax-Keeps (λ e r. tt) cancel_open_orders-Keeps) (λ u q.
          bind-Keeps _ (modify-Keeps _ clear) (λ u q.
            bind-Keeps {Q = λ (l : List Listing). Unit} _ (gets-Keeps _ (λ s p. tt))
              (λ listings q. each_any-Keeps _ (λ l. call-Keeps framed _) listings)))))

  pub initialize-Keeps :
      (listings : List Listing)
      → ((s : OrderManager W) → P s → P (record s { assets = listings }))
      → Keeps P (λ u. Unit) Any (initialize decimals services listings)
  unfolding initialize
  initialize-Keeps listings set = bind-Keeps _ (modify-Keeps _ set) (λ u q.
      bind-Keeps _ (each_any-Keeps _ (λ l. call-Keeps framed _) listings)
        (λ u q. relax-Keeps (λ e r. tt) reconcile_pending_orders-Keeps))
