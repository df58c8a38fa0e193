-- ===== src/Execution/Guard/Steps.antt =====
-- src/trading/orders/order_manager.py: sequences of calls of a running order manager, whose orders the
-- thread executes.
use mathlib.Core.Path.{subst}
use ml_crypto_trading.Prelude.{ℕ, some, List, [], ◌∷◌, true, false, All, ◌⊎◌, inl, inr, ◌≡◌, sym}
use ml_crypto_trading.Prelude.Decimal.{DecimalContext}
use ml_crypto_trading.Orders.{Order}
use ml_crypto_trading.Execution.Effects.{Error, Outcome, returned, raised}
use ml_crypto_trading.Execution.Effects.Ends.{Ends, returned_inv, raised_inv}
use ml_crypto_trading.Execution.State.{Services, OrderManager}
use ml_crypto_trading.Execution.Saving.{save_orders_to_database}
use ml_crypto_trading.Execution.Placing.{OrderRequest, open_order, process_order_queue}
use ml_crypto_trading.Execution.Reconciling.{reconcile_pending_orders, has_outstanding_intent}
use ml_crypto_trading.Execution.Stable.Saved.{save_orders_to_database-Keeps}
use ml_crypto_trading.Execution.Stable.Placed.{process_order_queue-Keeps}
use ml_crypto_trading.Execution.Stable.Reconciled.{reconcile_pending_orders-Keeps}
use ml_crypto_trading.Execution.Orderly.{IsPositive}
use ml_crypto_trading.Execution.Guard.{
  IsIntended, IsOther, IsHeld, IsHeld-IsFramed, IsHeld-IsRecording, IsHeld-IsReconciling,
}
use ml_crypto_trading.Execution.Guard.Asked.{has_outstanding_intent-IsIntended}
use ml_crypto_trading.Execution.Guard.Taken.{
  IsGuarded, IsFresh, take_next-IsGuarded, open_order-Leads,
}

-- The state in which a call came back, by returning or by raising.
abbrev pub EndsIn : {S A : Type 0} → Outcome S A → S → Type 0
EndsIn {S} {A} o s' = ((a : A) × (o ≡ returned a s')) ⊎ ((error : Error) × (o ≡ raised error s'))

module _ (decimals : DecimalContext) {W : Type 0} (services : Services W) where
  -- An order is opened, for a positive quantity and under an identifier that no other order has; the
  -- thread makes some rounds; updates about orders that are not queued come in; the stored orders are
  -- reconciled with the exchanges.
  pub data Step : OrderManager W → OrderManager W → Type 0 where
    opens :
        {s s' : OrderManager W} (r : OrderRequest) (order : Order)
        → s.synchronous_execution ≡ false
        → IsPositive r.quantity
        → open_order services r s ≡ returned order s'
        → IsFresh order.uuid s.order_queue s'
        → Step s s'
    works :
        {s s' : OrderManager W} (n : ℕ) → EndsIn (process_order_queue services n s) s' → Step s s'
    updates :
        {s s' : OrderManager W} (orders : List Order)
        → All (IsOther s.order_queue) orders
        → EndsIn (save_orders_to_database decimals services orders s) s'
        → Step s s'
    reconciles :
        {s s' : OrderManager W}
        → EndsIn (reconcile_pending_orders decimals services s) s'
        → Step s s'

  pub data Steps : OrderManager W → OrderManager W → Type 0 where
    done : {s : OrderManager W} → Steps s s
    then : {s s' s'' : OrderManager W} → Steps s s' → Step s' s'' → Steps s s''

  ended :
      {A : Type 0} {P : OrderManager W → Type 0} {Q : A → Type 0} {R : Error → Type 0}
      {o : Outcome (OrderManager W) A} (s' : OrderManager W)
      → Ends (λ a s. Q a × P s) (λ error s. R error × P s) o
      → EndsIn o s'
      → P s'
  ended s' h (inl r) = (returned_inv r.0 s' (subst (Ends _ _) r.1 h)).1
  ended s' h (inr r) = (raised_inv r.0 s' (subst (Ends _ _) r.1 h)).1

  guarded : (queue : List Order) (s' : OrderManager W) → IsHeld queue s' → IsGuarded s'
  guarded queue s' h = subst (λ q. IsHeld q s') (sym h.waiting) h

  step-IsGuarded : {s s' : OrderManager W} → Step s s' → IsGuarded s → IsGuarded s'
  step-IsGuarded {s = s} {s' = s'} (opens r order asynchronous g e fresh) p =
      let h =
        returned_inv order s'
          (subst (Ends _ _) e
            ((open_order-Leads services s.order_queue r g).at s (p, asynchronous)))
          fresh in
      guarded _ s' h
  step-IsGuarded {s = s} {s' = s'} (works n e) p =
      ended s'
        ((process_order_queue-Keeps services (take_next-IsGuarded decimals services) n).at s p) e
  step-IsGuarded {s = s} {s' = s'} (updates orders h e) p = guarded s.order_queue s' (
      ended s'
        ((save_orders_to_database-Keeps decimals services (IsHeld-IsFramed s.order_queue)
            (IsHeld-IsRecording s.order_queue decimals) orders h).at
          s p)
        e)
  step-IsGuarded {s = s} {s' = s'} (reconciles e) p = guarded s.order_queue s' (
      ended s'
        ((reconcile_pending_orders-Keeps decimals services (IsHeld-IsFramed s.order_queue)
            (IsHeld-IsRecording s.order_queue decimals) (IsHeld-IsReconciling s.order_queue)).at
          s p)
        e)

  Steps-IsGuarded : {s s' : OrderManager W} → Steps s s' → IsGuarded s → IsGuarded s'
  Steps-IsGuarded done p = p
  Steps-IsGuarded (then steps step) p = step-IsGuarded step (Steps-IsGuarded steps p)

  -- `has_outstanding_intent` answers that there is an intent for the order's ticker and action.
  abbrev pub IsBlocked : OrderManager W → Order → Type 0
  IsBlocked s order =
      has_outstanding_intent services order.ticker_symbol (some order.trade_action) s
      ≡ returned true s

  blocked :
      (queue : List Order) (s : OrderManager W)
      → All (IsIntended s.in_flight_orders) queue
      → All (IsBlocked s) queue
  blocked [] s h = tt
  blocked (order ∷ queue) s h =
      ((has_outstanding_intent-IsIntended services order s h.0).0, blocked queue s h.1)

  -- Whatever orders are opened, executed, updated and reconciled, in whatever order and whatever the
  -- exchange and the database do: in every state that is reached from a guarded one, every order that
  -- waits in the queue has its intent in flight, so `has_outstanding_intent` answers that its ticker
  -- has an intent of its action; and the state is guarded. Orders are opened under fresh identifiers,
  -- for the thread to execute, and updates are about orders that are not queued.
  pub Steps-IsBlocked :
      (s s' : OrderManager W)
      → Steps s s'
      → IsGuarded s
      → All (IsBlocked s') s'.order_queue × IsGuarded s'
  Steps-IsBlocked s s' steps p =
      let h = Steps-IsGuarded steps p in (blocked s'.order_queue s' h.intended, h)
