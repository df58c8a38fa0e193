-- ===== src/Execution/Guard/Taken.antt =====
-- src/trading/orders/order_manager.py: orders that enter and leave the queue with their intents.
use mathlib.Core.Path.{subst}
use mathlib.Core.Logic.{if_neg}
use ml_crypto_trading.Prelude.{
  String, Option, none, some, List, [], ◌∷◌, ◌++◌, Bool, true, false, holds, All, ◌≡◌, refl, sym,
  ap, ◌∙◌, arith, if_cases,
}
use ml_crypto_trading.Prelude.Text.{String-discrete, holds-String-discrete, is_empty_text}
use ml_crypto_trading.Prelude.Dict.{lookup, insert, lookup-insert, lookup-insert_self}
use ml_crypto_trading.Prelude.Int.{ℤ}
use ml_crypto_trading.Prelude.Decimal.{DecimalContext}
use ml_crypto_trading.Orders.{Order, TradeAction}
use ml_crypto_trading.Execution.OrderTable.{OrderTable}
use ml_crypto_trading.Execution.OrderTable.Rows.{AllRows}
use ml_crypto_trading.Execution.Effects.{◌>>=◌}
use ml_crypto_trading.Execution.Effects.Ends.{Ends, returns}
use ml_crypto_trading.Execution.Effects.Leads.{
  Leads, pure-Leads, gets-Leads, modify-Leads, bind-Leads, weaken-Ends,
}
use ml_crypto_trading.Execution.State.{Services, OrderManager, add_intent}
use ml_crypto_trading.Execution.Placing.{
  OrderRequest, new_order, take_next, choose_uuid, submit, open_order,
}
use ml_crypto_trading.Execution.Stable.Placed.{work_on-Keeps}
use ml_crypto_trading.Execution.Orderly.{IsPositive, HasQuantity, append-All}
use ml_crypto_trading.Execution.Guard.{
  Intents, same_uuid, is_queued, Distinct, IsIntended, IsElsewhere, IsHeld, IsHeld-IsFramed,
  IsHeld-IsRecording,
}

-- `IsHeld` of the queue that there is.
abbrev pub IsGuarded : {W : Type 0} → OrderManager W → Type 0
IsGuarded s = IsHeld s.order_queue s

AllRows-map :
    (D E : String → ℤ → Type 0) (table : OrderTable)
    → ((u : String) (q : ℤ) → D u q → E u q)
    → AllRows D table
    → AllRows E table
AllRows-map D E [] f h = tt
AllRows-map D E ((k, row) ∷ table) f h = (f row.uuid row.quantity h.0, AllRows-map D E table f h.1)

rest-IsElsewhere :
    (order : Order) (rest : List Order) (uuid : String) (quantity : ℤ)
    → IsElsewhere (order ∷ rest) uuid quantity
    → IsElsewhere rest uuid quantity
rest-IsElsewhere order rest uuid quantity h = (h.0, ground arith)

-- No order of the queue and no stored order has the identifier.
abbrev pub IsFresh : {W : Type 0} → String → List Order → OrderManager W → Type 0
IsFresh uuid queue s =
    (is_queued uuid queue ≡ false)
    × AllRows (λ stored quantity. same_uuid uuid stored ≡ false) s.orders

insert_other :
    (uuid j : String) (intent : String × TradeAction) (intents : Intents)
    → same_uuid j uuid ≡ false
    → lookup String-discrete j (insert String-discrete uuid intent intents)
      ≡ lookup String-discrete j intents
insert_other uuid j intent intents h =
    lookup-insert String-discrete uuid j intent intents ∙ elim (String-discrete uuid j) [
      | yes p ↦ absurd (cc (holds-String-discrete j uuid (sym p)))
      | no p ↦ if_neg (String-discrete uuid j) p _ _
    ]

insert-IsIntended :
    (order : Order) (intents : Intents) (queue : List Order)
    → is_queued order.uuid queue ≡ false
    → All (IsIntended intents) queue
    → All
        (IsIntended
          (insert String-discrete order.uuid (order.ticker_symbol, order.trade_action) intents))
        (queue ++ order ∷ [])
insert-IsIntended order intents [] h k =
    (lookup-insert_self String-discrete order.uuid _ intents, tt)
insert-IsIntended order intents (o ∷ queue) h k = (
  insert_other order.uuid o.uuid _ intents (ground arith) ∙ k.0,
  insert-IsIntended order intents queue (ground arith) k.1,
)

same_uuid_sym : (a b : String) → same_uuid a b ≡ false → same_uuid b a ≡ false
same_uuid_sym a b h = elim (String-discrete b a) as (λ d. holds d ≡ false) [
  | yes p ↦ absurd (cc (holds-String-discrete a b (sym p)))
  | no p ↦ refl
]

append-is_queued :
    (uuid : String) (order : Order) (queue : List Order)
    → is_queued uuid queue ≡ false
    → same_uuid order.uuid uuid ≡ false
    → is_queued uuid (queue ++ order ∷ []) ≡ false
append-is_queued uuid order [] h f = ground arith
append-is_queued uuid order (o ∷ queue) h f =
    ground (arith, append-is_queued uuid order queue (ground arith) f)

append-Distinct :
    (order : Order) (queue : List Order)
    → is_queued order.uuid queue ≡ false
    → Distinct queue
    → Distinct (queue ++ order ∷ [])
append-Distinct order [] h d = (refl, tt)
append-Distinct order (o ∷ queue) h d = (
  append-is_queued o.uuid order queue d.0 (same_uuid_sym o.uuid order.uuid (ground arith)),
  append-Distinct order queue (ground arith) d.1,
)

rows-IsElsewhere :
    (order : Order) (queue : List Order) (table : OrderTable)
    → AllRows (λ stored quantity. same_uuid order.uuid stored ≡ false) table
    → AllRows (IsElsewhere queue) table
    → AllRows (IsElsewhere (queue ++ order ∷ [])) table
rows-IsElsewhere order queue [] f h = tt
rows-IsElsewhere order queue ((k, row) ∷ table) f h = (
  (h.0.0, append-is_queued row.uuid order queue h.0.1 f.0),
  rows-IsElsewhere order queue table f.1 h.1,
)

module _ (decimals : DecimalContext) {W : Type 0} (services : Services W) where
  pub take_next-IsGuarded :
      (queue : List Order) (s : OrderManager W)
      → s.order_queue ≡ queue
      → IsGuarded s
      → Ends
          (λ u s'. Unit × IsGuarded s')
          (λ error s'. ⊥ × IsGuarded s')
          (take_next services queue s)
  unfolding ◌>>=◌
  take_next-IsGuarded [] s e p = returns (tt, p)
  take_next-IsGuarded (order ∷ rest) s e p =
      let held = subst (λ q. IsHeld q s) e p in
      let left : IsHeld rest (record s { order_queue = rest }) = record {
        session = held.session;
        waiting = refl;
        distinct = held.distinct.1;
        quantities = held.quantities.1;
        intended = held.intended.1;
        rows = AllRows-map _ _ s.orders (rest-IsElsewhere order rest) held.rows;
      } in
      weaken-Ends (λ u s' h. (tt, subst (λ q. IsHeld q s') (sym h.1.waiting) h.1))
        (λ error s' h. absurd h.0)
        ((work_on-Keeps decimals services (IsHeld-IsFramed rest) (IsHeld-IsRecording rest decimals)
            (λ o g. g) order (held.quantities.0, held.distinct.0)).at
          _ left)

module _ {W : Type 0} (services : Services W) (queue : List Order) where
  -- The queue is held, and orders are executed by the thread.
  abbrev Waits : OrderManager W → Type 0
  Waits s = IsHeld queue s × (s.synchronous_execution ≡ false)

  -- The order has been added to the queue that was, if its identifier is fresh.
  abbrev pub HasQueued : Order → OrderManager W → Type 0
  HasQueued order s' = IsFresh order.uuid queue s' → IsHeld (queue ++ order ∷ []) s'

  same_world : (s : OrderManager W) (w : W) → IsHeld queue s → IsHeld queue (record s { world = w })
  same_world s w p = (IsHeld-IsFramed queue).world s w p

  choose_uuid-Leads :
      (o : Option String) → Leads Waits (λ uuid. Waits) (λ error s'. ⊥) (choose_uuid services o)
  choose_uuid-Leads none = record {
    at = λ s p. returns (same_world s (services.uuid4 s.world).1 p.0, p.1);
  }
  choose_uuid-Leads (some uuid) = record {
    at = λ s p.
        if_cases (Ends (λ u. Waits) (λ error s'. ⊥)) (is_empty_text uuid)
          (λ e. returns (same_world s (services.uuid4 s.world).1 p.0, p.1)) (λ e. returns p);
  }

  -- The state between the intent and the queue.
  abbrev HasIntended : Order → OrderManager W → Type 0
  HasIntended order s' =
      (IsFresh order.uuid queue s'
        → IsHeld (queue ++ order ∷ []) (record s' { order_queue = s'.order_queue ++ order ∷ [] }))
      × (s'.synchronous_execution ≡ false)

  add_intent_lem :
      (order : Order) (s : OrderManager W)
      → HasQuantity order
      → Waits s
      → HasIntended order (add_intent order s)
  add_intent_lem order s g p = (
    λ fresh. record {
      session = p.0.session;
      waiting = ap (λ (q : List Order). q ++ order ∷ []) p.0.waiting;
      distinct = append-Distinct order queue fresh.0 p.0.distinct;
      quantities = append-All queue order p.0.quantities g;
      intended = insert-IsIntended order s.in_flight_orders queue fresh.0 p.0.intended;
      rows = rows-IsElsewhere order queue s.orders fresh.1 p.0.rows;
    },
    p.1,
  )

  submit-Leads :
      (order : Order) (synchronous : Bool)
      → Leads
          (λ s. (synchronous ≡ false) × HasIntended order s)
          HasQueued
          (λ error s'. ⊥)
          (submit services order synchronous)
  submit-Leads order true = record { at = λ s p. absurd (cc p.0) }
  submit-Leads order false =
      bind-Leads {Q = λ u. HasQueued order} _ (modify-Leads _ (λ s p. p.1.0))
        (λ u. pure-Leads order (λ s h. h))

  pub open_order-Leads :
      (r : OrderRequest)
      → IsPositive r.quantity
      → Leads Waits HasQueued (λ error s'. ⊥) (open_order services r)
  unfolding open_order
  open_order-Leads r g = bind-Leads {Q = λ head. Waits} _ (gets-Leads _ (λ s p. p)) (λ head.
      bind-Leads _ (choose_uuid-Leads r.uuid) (λ uuid.
        bind-Leads {Q = λ u. HasIntended (new_order r uuid head)} _
          (modify-Leads _ (λ s p. add_intent_lem (new_order r uuid head) s g p))
          (λ u.
            bind-Leads
              {Q = λ synchronous s'. (synchronous ≡ false) × HasIntended (new_order r uuid head) s'}
              _ (gets-Leads _ (λ s p. (p.1, p))) (λ synchronous. submit-Leads _ synchronous))))
