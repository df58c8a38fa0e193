-- ===== src/Execution/Stable/Saved.antt =====
-- src/trading/orders/order_manager.py: properties that `_save_orders_to_database` keeps.
use mathlib.Core.Path.{subst}
use ml_crypto_trading.Prelude.{String, Option, some, List, All, ◌≡◌, sym, if_intro}
use ml_crypto_trading.Prelude.Decimal.{DecimalContext}
use ml_crypto_trading.Orders.{Order, OrderStatus, completed, cancelled}
use ml_crypto_trading.Session.Lot.{Trade}
use ml_crypto_trading.Session.Manager.Fills.{Identifiers, Recorded, record_order_fill}
use ml_crypto_trading.Session.Manager.Fills.Named.{IsNamed}
use ml_crypto_trading.Execution.OrderTable.{OrderTable}
use ml_crypto_trading.Execution.Effects.{modify}
use ml_crypto_trading.Execution.Effects.Ends.{
  Ends, returns, Keeps, pure-Keeps, gets-Keeps, modify-Keeps, bind-Keeps, each-Keeps,
  each_any-Keeps,
}
use ml_crypto_trading.Execution.State.{
  Services, OrderManager, OrderEvent, publish_all, pop_intent, is_open,
}
use ml_crypto_trading.Execution.Saving.{
  recorded, record_fill_of, release_intent, follow_status, complete_order, save_order,
  save_orders_to_database,
}
use ml_crypto_trading.Execution.Stable.{
  Any, IsFramed, call-Keeps, unit_of_work-Keeps, upsert_order-Keeps,
}

-- `P` survives an event, the release of an intent and the fill of an order in `G`.
pub record IsRecording (decimals : DecimalContext) {W : Type 0} (P : OrderManager W → Type 0)
    (G : Order → Type 0) : Type 0 where
  pub publish : (s : OrderManager W) (events : List OrderEvent) → P s → P (publish_all events s)
  pub pop : (s : OrderManager W) (order : Order) → G order → P s → P (pop_intent order.uuid s)
  pub name :
      (order : Order) (hash : Option String) → G order → G (record order { commit_hash = hash })
  pub fill :
      (s : OrderManager W) (head : Option String) (ids : Identifiers) (order : Order)
      → G order
      → P s
      → (r : Recorded) × (record_order_fill decimals head ids order s.session_manager ≡ some r)
        × IsNamed order r.1
        × P (record s { session_manager = r.0 })

module _ (decimals : DecimalContext) {W : Type 0} (services : Services W)
    {P : OrderManager W → Type 0} {Admits : OrderTable → Type 0} {G : Order → Type 0}
    (framed : IsFramed P Admits G) (recording : IsRecording decimals P G) where
  record_fill_of-Keeps :
      (order : Order)
      → G order
      → Keeps P (λ (r : Order × List Trade). G r.0) Any (record_fill_of decimals services order)
  unfolding record_fill_of
  record_fill_of-Keeps order g = record {
    at = λ s p.
        let (ids, w) = services.draw s.world in
        let drawn = record s { world = w } in
        let (r, e, (hash, named), p') =
          recording.fill drawn (services.head_commit s.world) ids order g (framed.world s w p) in
        subst
          (λ o.
            Ends (λ (a : Order × List Trade) s'. G a.0 × P s') (λ error s'. Unit × P s')
              (recorded decimals services o drawn))
          (sym e) (returns (subst G (sym named) (recording.name order hash g), p'));
  }

  complete_order-Keeps :
      (order : Order) → G order → Keeps P G Any (complete_order decimals services order)
  complete_order-Keeps order g = bind-Keeps _ (call-Keeps framed _) (λ u q.
      bind-Keeps _ (record_fill_of-Keeps order g) (λ r named.
        bind-Keeps _ (each_any-Keeps _ (λ t. call-Keeps framed _) _) (λ u q.
          bind-Keeps _
            (modify-Keeps _
              (λ s p. recording.publish _ _ (recording.publish _ _ (recording.publish s _ p))))
            (λ u q. pure-Keeps _ named))))

  follow_status-Keeps :
      (status : Option OrderStatus) (order : Order)
      → G order
      → Keeps P G Any (follow_status decimals services status order)
  follow_status-Keeps (some completed) order g = complete_order-Keeps order g
  follow_status-Keeps (some cancelled) order g =
      bind-Keeps _ (modify-Keeps _ (λ s p. recording.publish s _ p)) (λ u q. pure-Keeps _ g)
  follow_status-Keeps _ order g = pure-Keeps _ g

  release_intent-Keeps :
      (order : Order) → G order → Keeps P (λ u. Unit) Any (modify (release_intent {W = W} order))
  release_intent-Keeps order g =
      modify-Keeps _ (λ s p. if_intro P (is_open order.status) p (recording.pop s order g p))

  pub save_order-Keeps :
      (order : Order) → G order → Keeps P (λ u. Unit) Any (save_order decimals services order)
  unfolding save_order
  save_order-Keeps order g =
      bind-Keeps {Q = G} _ (gets-Keeps _ (λ s p. if_intro G _ (recording.name order _ g) g))
        (λ known g'. bind-Keeps _ (release_intent-Keeps known g') (λ u q.
          bind-Keeps _ (follow_status-Keeps known.status known g')
            (λ final g''. upsert_order-Keeps framed services final g'')))

  pub save_orders_to_database-Keeps :
      (orders : List Order)
      → All G orders
      → Keeps P (λ u. Unit) Any (save_orders_to_database decimals services orders)
  unfolding save_orders_to_database
  save_orders_to_database-Keeps orders h =
      unit_of_work-Keeps framed services (each-Keeps _ G orders save_order-Keeps h)
