-- ===== src/Execution/Stable.antt =====
-- src/trading/orders/order_manager.py: what a property of the order manager has to survive, step by step,
-- to be kept by the operations of the class that are composed of the steps.
pub mod Saved
pub mod Placed
pub mod Reconciled
use ml_crypto_trading.Prelude.{Option, none, some, ◌≡◌, refl}
use ml_crypto_trading.Orders.{Order}
use ml_crypto_trading.Execution.OrderTable.{OrderTable, upsert}
use ml_crypto_trading.Execution.Effects.{Error, Answer, Action, gives, raises}
use ml_crypto_trading.Execution.Effects.Ends.{
  Ends, returns, raises as raises_with, Keeps, raise-Keeps, gets-Keeps, modify-Keeps, bind-Keeps,
  attempt-Keeps,
}
use ml_crypto_trading.Execution.State.{Services, OrderManager, Service, call, answered}
use ml_crypto_trading.Execution.Saving.{unit_of_work, undo, upsert_order, stored}

-- Any exception.
abbrev pub Any : Error → Type 0
Any error = Unit

-- `P` survives what the world does, a row that is stored for an order in `G`, and the return to the
-- orders that were stored in an earlier state.
pub record IsFramed {W : Type 0} (P : OrderManager W → Type 0) (Admits : OrderTable → Type 0)
    (G : Order → Type 0) : Type 0 where
  pub world : (s : OrderManager W) (w : W) → P s → P (record s { world = w })
  pub admits : (s : OrderManager W) → P s → Admits s.orders
  pub undo :
      (s : OrderManager W) (old : OrderTable) → Admits old → P s → P (record s { orders = old })
  pub store :
      (s : OrderManager W) (order : Order) (old table : OrderTable)
      → G order
      → Admits old
      → upsert order old ≡ some table
      → P s
      → P (record s { orders = table })

module _ {W : Type 0} {P : OrderManager W → Type 0}
    (world : (s : OrderManager W) (w : W) → P s → P (record s { world = w })) where
  answered-Ends :
      {A : Type 0} (reply : Answer A × W) (s : OrderManager W)
      → P s
      → Ends (λ a s'. Unit × P s') (λ error s'. Unit × P s') (answered reply s)
  answered-Ends (gives a, w) s p = returns (tt, world s w p)
  answered-Ends (raises error, w) s p = raises_with (tt, world s w p)

  pub call-Any-Keeps : {A : Type 0} (service : Service W A) → Keeps P (λ a. Unit) Any (call service)
  unfolding call
  call-Any-Keeps service = record { at = λ s p. answered-Ends (service s.world) s p }

module _ {W : Type 0} {P : OrderManager W → Type 0} {Admits : OrderTable → Type 0}
    {G : Order → Type 0} (framed : IsFramed P Admits G) where
  pub call-Keeps : {A : Type 0} (service : Service W A) → Keeps P (λ a. Unit) Any (call service)
  call-Keeps service = call-Any-Keeps framed.world service

  module _ (services : Services W) where
    undo-Keeps :
        (old : OrderTable)
        → Admits old
        → (error : Error) → Keeps P (λ u. Unit) Any (undo services old error)
    undo-Keeps old h error = record {
      at = λ s p. raises_with (
        tt,
        framed.undo (record s { world = services.rollback s.world }) old h (framed.world s _ p),
      );
    }

    pub unit_of_work-Keeps :
        {body : Action (OrderManager W) Unit}
        → Keeps P (λ u. Unit) Any body
        → Keeps P (λ u. Unit) Any (unit_of_work services body)
    unfolding unit_of_work
    unit_of_work-Keeps k = bind-Keeps _ (call-Keeps _) (λ u q.
        bind-Keeps {Q = Admits} _ (gets-Keeps _ framed.admits) (λ old h.
          attempt-Keeps {R = Any} _ (bind-Keeps _ k (λ u q. call-Keeps _))
            (λ error r. undo-Keeps old h error)))

    stored-Keeps :
        (order : Order) (old : OrderTable) (o : Option OrderTable)
        → G order
        → Admits old
        → upsert order old ≡ o
        → Keeps P (λ u. Unit) Any (stored {W = W} o)
    stored-Keeps order old none g h e = raise-Keeps _ tt
    stored-Keeps order old (some table) g h e =
        modify-Keeps _ (λ s p. framed.store s order old table g h e p)

    pub upsert_order-Keeps :
        (order : Order) → G order → Keeps P (λ u. Unit) Any (upsert_order services order)
    unfolding upsert_order
    upsert_order-Keeps order g = bind-Keeps _ (call-Keeps _) (λ u q.
        bind-Keeps {Q = Admits} _ (gets-Keeps _ framed.admits)
          (λ old h. stored-Keeps order old _ g h refl))
