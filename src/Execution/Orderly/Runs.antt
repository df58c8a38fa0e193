-- ===== src/Execution/Orderly/Runs.antt =====
-- src/trading/orders/order_manager.py: runs of the calls of `OrderManager`, in any order. A call that
-- raises leaves what it has written.
use ml_crypto_trading.Prelude.{ℕ, List, [], ◌∷◌, All, ◌≡◌, refl}
use ml_crypto_trading.Prelude.Decimal.{DecimalContext}
use ml_crypto_trading.Orders.{Order}
use ml_crypto_trading.Execution.Effects.{Outcome, Action, returned, pure, attempt, ◌>>◌}
use ml_crypto_trading.Execution.Effects.Ends.{
  Ends, returns, raises, Keeps, pure-Keeps, bind-Keeps, attempt-Keeps, relax-Keeps,
}
use ml_crypto_trading.Execution.State.{Services, OrderManager, Listing}
use ml_crypto_trading.Execution.Saving.{save_orders_to_database}
use ml_crypto_trading.Execution.Placing.{OrderRequest, open_order, process_order_queue}
use ml_crypto_trading.Execution.Reconciling.{reconcile_pending_orders, shutdown, initialize}
use ml_crypto_trading.Execution.Stable.{Any}
use ml_crypto_trading.Execution.Stable.Saved.{save_orders_to_database-Keeps}
use ml_crypto_trading.Execution.Stable.Placed.{
  Nothing, take_next-Ends, process_order_queue-Keeps, open_order-Keeps,
}
use ml_crypto_trading.Execution.Stable.Reconciled.{
  reconcile_pending_orders-Keeps, shutdown-Keeps, initialize-Keeps,
}
use ml_crypto_trading.Execution.Orderly.{
  IsPositive, HasQuantity, IsOrderly, IsOrderly-IsFramed, IsOrderly-IsRecording,
  IsOrderly-IsReconciling, dequeue-IsOrderly, enqueue-IsOrderly,
}

pub data Command : Type 0 where
  initialize_with : List Listing → Command
  request : OrderRequest → Command
  work : ℕ → Command
  update : List Order → Command
  reconcile stop_all : Command

-- Orders are opened for, and updates are about, positive quantities.
abbrev pub IsProper : Command → Type 0
IsProper (request r) = IsPositive r.quantity
IsProper (update orders) = All HasQuantity orders
IsProper _ = Unit

module _ (decimals : DecimalContext) {W : Type 0} (services : Services W) where
  abbrev pub perform : Command → Action (OrderManager W) Unit
  perform (initialize_with listings) = initialize decimals services listings
  perform (request r) = do open_order services r; pure tt
  perform (work n) = process_order_queue services n
  perform (update orders) = save_orders_to_database decimals services orders
  perform reconcile = reconcile_pending_orders decimals services
  perform stop_all = shutdown decimals services

  -- A sequence of calls, each made whether or not the one before raised.
  unfoldable pub run : List Command → Action (OrderManager W) Unit
  run [] = pure tt
  run (command ∷ commands) = do attempt (perform command) (λ error. pure tt); run commands

  perform-Keeps :
      (command : Command) → IsProper command → Keeps IsOrderly (λ u. Unit) Any (perform command)
  perform-Keeps (initialize_with listings) h =
      initialize-Keeps decimals services IsOrderly-IsFramed (IsOrderly-IsRecording decimals)
        IsOrderly-IsReconciling listings
        (λ s p. record { session = p.session; rows = p.rows; queue = p.queue })
  perform-Keeps (request r) h =
      bind-Keeps _
        (relax-Keeps (λ e x. tt)
          (open_order-Keeps decimals services IsOrderly-IsFramed (IsOrderly-IsRecording decimals)
            (λ order g. g)
            (λ s order g p. record { session = p.session; rows = p.rows; queue = p.queue })
            enqueue-IsOrderly r (λ uuid head. h)))
        (λ order g. pure-Keeps tt tt)
  perform-Keeps (work n) h =
      relax-Keeps (λ e x. tt)
        (process_order_queue-Keeps services
          (take_next-Ends decimals services IsOrderly-IsFramed (IsOrderly-IsRecording decimals)
            (λ order g. g) dequeue-IsOrderly)
          n)
  perform-Keeps (update orders) h =
      save_orders_to_database-Keeps decimals services IsOrderly-IsFramed
        (IsOrderly-IsRecording decimals) orders h
  perform-Keeps reconcile h =
      relax-Keeps (λ e x. tt)
        (reconcile_pending_orders-Keeps decimals services IsOrderly-IsFramed
          (IsOrderly-IsRecording decimals) IsOrderly-IsReconciling)
  perform-Keeps stop_all h =
      shutdown-Keeps decimals services IsOrderly-IsFramed (IsOrderly-IsRecording decimals)
        IsOrderly-IsReconciling
        (λ s p. record { session = p.session; rows = p.rows; queue = p.queue })
        (λ s p. record { session = p.session; rows = p.rows; queue = p.queue })

  run-Keeps :
      (commands : List Command)
      → All IsProper commands
      → Keeps IsOrderly (λ u. Unit) Nothing (run commands)
  unfolding run
  run-Keeps [] h = pure-Keeps tt tt
  run-Keeps (command ∷ commands) h =
      bind-Keeps _
        (attempt-Keeps {R = Any} _ (perform-Keeps command h.0) (λ error r. pure-Keeps tt tt))
        (λ u q. run-Keeps commands h.1)

  finished :
      {P : OrderManager W → Type 0} {o : Outcome (OrderManager W) Unit}
      → Ends (λ u s'. Unit × P s') (λ error s'. ⊥ × P s') o
      → (s' : OrderManager W) × (o ≡ returned tt s') × P s'
  finished (returns h) = (_, refl, h.1)
  finished (raises h) = elim h.0 [ ]

  -- Whatever calls are made in whatever order, and whatever the exchange, the journal and the database
  -- do, every call of an order manager comes back, if orders are opened for positive quantities and
  -- updates are about such orders; and the session stays sound and the stored and the queued orders
  -- keep positive quantities.
  pub run-IsOrderly :
      (commands : List Command) (s : OrderManager W)
      → All IsProper commands
      → IsOrderly s
      → (s' : OrderManager W) × (run commands s ≡ returned tt s') × IsOrderly s'
  run-IsOrderly commands s h p = finished ((run-Keeps commands h).at s p)
