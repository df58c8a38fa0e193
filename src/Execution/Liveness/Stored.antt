-- ===== src/Execution/Liveness/Stored.antt =====
-- src/trading/orders/order_manager.py: `execute_order`, which stores the order or raises with it.
use mathlib.Core.Option.{some-injective}
use mathlib.Core.Path.{subst}
use ml_crypto_trading.Prelude.{String, Option, none, some, true, is_some, ◌≡◌, refl, ap, if_intro}
use ml_crypto_trading.Prelude.Text.{String-discrete}
use ml_crypto_trading.Prelude.Dict.{lookup-insert_self}
use ml_crypto_trading.Orders.{Order, OrderStatus}
use ml_crypto_trading.Execution.OrderTable.{OrderTable, row_with, write, map_to_db, upsert}
use ml_crypto_trading.Execution.Effects.{Error, order_error}
use ml_crypto_trading.Execution.Effects.Ends.{raises, pure-Keeps, attempt-Keeps}
use ml_crypto_trading.Execution.Effects.Leads.{
  Leads, Leads-of_Keeps, pure-Leads, gets-Leads, raise-Leads, modify-Leads, weaken-Leads,
  before-Leads, fact-Leads, bind-Leads, attempt-Leads,
}
use ml_crypto_trading.Execution.State.{Services, OrderManager, call}
use ml_crypto_trading.Execution.Saving.{unit_of_work, undo, upsert_order, stored}
use ml_crypto_trading.Execution.Placing.{as_rejected, reject_order, place_and_store, execute_order}
use ml_crypto_trading.Execution.Stable.{
  Any, call-Any-Keeps, call-Keeps, unit_of_work-Keeps, upsert_order-Keeps,
}
use ml_crypto_trading.Execution.Liveness.{is_stored, IsAside, KeepsRows, IsAside-IsFramed}

-- The error of `execute_order` about the order under the identifier.
abbrev pub IsAbout : String → Error → Type 0
IsAbout uuid (order_error order) = order.uuid ≡ uuid
IsAbout uuid _ = ⊥

write-is_stored_self :
    (order : Order) (status : Option OrderStatus) (old table : OrderTable)
    → write (row_with order status) old ≡ some table
    → is_stored order.uuid table ≡ true
write-is_stored_self order none old table e = cc
write-is_stored_self order (some status) old table e =
    subst (λ t. is_stored order.uuid t ≡ true) (some-injective _ _ e)
      (ap is_some (lookup-insert_self String-discrete order.uuid _ old))

module _ {W : Type 0} (services : Services W) (s : OrderManager W) where
  abbrev Aside : Error → OrderManager W → Type 0
  Aside error s' = Unit × IsAside s s'

  -- The order is stored, and nothing else has happened to the manager.
  abbrev pub HasStored : String → OrderManager W → Type 0
  HasStored uuid s' = IsAside s s' × (is_stored uuid s'.orders ≡ true)

  stored-Leads :
      (order : Order) (old : OrderTable) (o : Option OrderTable)
      → upsert order old ≡ o
      → KeepsRows s old
      → Leads (IsAside s) (λ u. HasStored order.uuid) Aside (stored o)
  unfolding upsert map_to_db
  stored-Leads order old none e h = raise-Leads _ (λ s' p. (tt, p))
  stored-Leads order old (some table) e h = modify-Leads _ (λ s' p. (
    (IsAside-IsFramed s).store s' order old table tt h e p,
    write-is_stored_self order order.status old table e,
  ))

  upsert_order-Leads :
      (order : Order)
      → Leads (IsAside s) (λ u. HasStored order.uuid) Aside (upsert_order services order)
  unfolding upsert_order
  upsert_order-Leads order = bind-Leads _ (Leads-of_Keeps (call-Keeps (IsAside-IsFramed s) _)) (λ u.
      fact-Leads (λ t.
        bind-Leads {Q = λ old s'. KeepsRows s old × IsAside s s'} _
          (gets-Leads _ (λ s' p. (p.later.rows, p)))
          (λ old. fact-Leads (λ h. stored-Leads order old _ refl h))))

  undo-Leads :
      (uuid : String) (old : OrderTable) (error : Error)
      → KeepsRows s old
      → Leads (Aside error) (λ u. HasStored uuid) Aside (undo services old error)
  undo-Leads uuid old error h = record {
    at = λ s' p. raises (
      tt,
      (IsAside-IsFramed s).undo (record s' { world = services.rollback s'.world }) old h
          ((IsAside-IsFramed s).world s' _ p.1),
    );
  }

  complete-Leads :
      (uuid : String) → Leads (HasStored uuid) (λ u. HasStored uuid) Aside (call services.complete)
  complete-Leads uuid =
      weaken-Leads (λ u s' h. h.1) (λ error s' h. (tt, h.1.0))
        (Leads-of_Keeps
          (call-Any-Keeps (λ s' w h. ((IsAside-IsFramed s).world s' w h.0, h.1)) services.complete))

  unit_of_work-Leads :
      (order : Order)
      → Leads
          (IsAside s)
          (λ u. HasStored order.uuid)
          Aside
          (unit_of_work services (upsert_order services order))
  unfolding unit_of_work
  unit_of_work-Leads order = bind-Leads _ (Leads-of_Keeps (call-Keeps (IsAside-IsFramed s) _)) (λ u.
      fact-Leads (λ t.
        bind-Leads {Q = λ old s'. KeepsRows s old × IsAside s s'} _
          (gets-Leads _ (λ s' p. (p.later.rows, p)))
          (λ old. fact-Leads (λ h.
            attempt-Leads {R = Aside} _
              (bind-Leads _ (upsert_order-Leads order) (λ u. complete-Leads order.uuid))
              (λ error. undo-Leads order.uuid old error h)))))

  place_and_store-Leads :
      (order : Order)
      → Leads (IsAside s) (λ o. HasStored order.uuid) Aside (place_and_store services order)
  place_and_store-Leads order =
      bind-Leads _ (Leads-of_Keeps (call-Keeps (IsAside-IsFramed s) _)) (λ u.
        fact-Leads
          (λ t. bind-Leads _ (unit_of_work-Leads order) (λ u. pure-Leads order (λ s' h. h))))

  reject_order-Leads :
      (order : Order) (error : Error)
      → Leads
          (Aside error)
          (λ o. HasStored order.uuid)
          (λ e s'. IsAbout order.uuid e × IsAside s s')
          (reject_order services order)
  reject_order-Leads order error =
      bind-Leads {Q = λ u s'. Unit × IsAside s s'} _
        (before-Leads (λ s' p. p.1)
          (weaken-Leads (λ u s' h. h) (λ e s' h. absurd h.0)
            (Leads-of_Keeps {E = λ e. ⊥} (
              attempt-Keeps {R = Any} _
                (unit_of_work-Keeps (IsAside-IsFramed s) services
                  (upsert_order-Keeps (IsAside-IsFramed s) services (as_rejected order) tt))
                (λ e r. pure-Keeps tt tt)))))
        (λ u. raise-Leads _ (λ s' p. (refl, p.1)))

  pub execute_order-Leads :
      (order : Order)
      → Leads
          (IsAside s)
          (λ o. HasStored order.uuid)
          (λ e s'. IsAbout order.uuid e × IsAside s s')
          (execute_order services order)
  unfolding execute_order
  execute_order-Leads order =
      bind-Leads {Q = λ known s'. (known.uuid ≡ order.uuid) × IsAside s s'} _
        (gets-Leads _ (λ s' p. (if_intro (λ (o : Order). o.uuid ≡ order.uuid) _ refl refl, p)))
        (λ known. fact-Leads (λ same.
          weaken-Leads (λ o s' h. (h.0, subst (λ u. is_stored u s'.orders ≡ true) same h.1))
            (λ e s' h. (subst (λ u. IsAbout u e) same h.0, h.1))
            (attempt-Leads {R = Aside} _ (place_and_store-Leads known)
              (λ error. reject_order-Leads known error))))
