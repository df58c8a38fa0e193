-- ===== src/Execution/Liveness.antt =====
-- src/trading/orders/order_manager.py: what one order that is taken off the queue leaves behind.
pub mod Stored
pub mod Worker
use ml_crypto_trading.Prelude.{
  String, Option, none, some, List, [], ◌∷◌, ◌++◌, Bool, true, false, any, holds, is_some, ◌≡◌,
  refl, ◌⊎◌, inl, inr, arith,
}
use mathlib.Core.Option.{some-injective}
use mathlib.Core.Path.{subst}
use ml_crypto_trading.Prelude.Text.{String-discrete, holds-String-discrete}
use ml_crypto_trading.Prelude.Dict.{
  lookup, contains, contains-insert, erase_keeps_missing, lookup-erase_self,
}
use ml_crypto_trading.Orders.{Order}
use ml_crypto_trading.Execution.OrderTable.{OrderDao, OrderTable, write, map_to_db, upsert}
use ml_crypto_trading.Execution.State.{
  OrderManager, OrderEvent, order_rejected, runtime_error_captured,
}
use ml_crypto_trading.Execution.Placing.{drop_rejected}
use ml_crypto_trading.Execution.Stable.{IsFramed}

-- An `OrderRejectedEvent` about the order under the identifier.
abbrev pub rejects : String → OrderEvent → Bool
rejects uuid (order_rejected symbol order) = holds (String-discrete order.uuid uuid)
rejects uuid _ = false

abbrev pub is_stored : String → OrderTable → Bool
is_stored uuid table = contains String-discrete uuid table

module _ {W : Type 0} where
  abbrev pub HasIntent : String → OrderManager W → Type 0
  HasIntent uuid s = is_some (lookup String-discrete uuid s.in_flight_orders) ≡ true

  -- Nothing that was stored or published is lost, and no intent has come up.
  pub record IsLater (s s' : OrderManager W) : Type 0 where
    pub rows : (uuid : String) → is_stored uuid s.orders ≡ true → is_stored uuid s'.orders ≡ true
    pub events :
        (uuid : String)
        → any (rejects uuid) s.published ≡ true
        → any (rejects uuid) s'.published ≡ true
    pub intents :
        (uuid : String)
        → lookup String-discrete uuid s.in_flight_orders ≡ none
        → lookup String-discrete uuid s'.in_flight_orders ≡ none

  -- The same, with the queue and the stop flag as they were.
  pub record IsAside (s s' : OrderManager W) : Type 0 where
    pub later : IsLater s s'
    pub queue : s'.order_queue ≡ s.order_queue
    pub stopped : s'.stopped ≡ s.stopped

  -- The order is stored, or its rejection is published and its intent released.
  abbrev pub IsAnswered : String → OrderManager W → Type 0
  IsAnswered uuid s =
      (is_stored uuid s.orders ≡ true)
      ⊎ ((any (rejects uuid) s.published ≡ true)
          × (lookup String-discrete uuid s.in_flight_orders ≡ none))

  pub IsLater-refl : (s : OrderManager W) → IsLater s s
  IsLater-refl s = record { rows = λ u h. h; events = λ u h. h; intents = λ u h. h }

  pub IsLater-trans : {a b c : OrderManager W} → IsLater a b → IsLater b c → IsLater a c
  IsLater-trans p q = record {
    rows = λ u h. q.rows u (p.rows u h);
    events = λ u h. q.events u (p.events u h);
    intents = λ u h. q.intents u (p.intents u h);
  }

  pub IsAnswered-IsLater :
      (uuid : String) (s s' : OrderManager W)
      → IsLater s s'
      → IsAnswered uuid s
      → IsAnswered uuid s'
  IsAnswered-IsLater uuid s s' l (inl h) = inl (l.rows uuid h)
  IsAnswered-IsLater uuid s s' l (inr h) = inr (l.events uuid h.0, l.intents uuid h.1)

any_append {ℓ} :
    {A : Type ℓ} (p : A → Bool) (xs ys : List A) → any p xs ≡ true → any p (xs ++ ys) ≡ true
any_append p [] ys h = cc
any_append p (x ∷ xs) ys h = ground (arith, any_append p xs ys)

any_last {ℓ} :
    {A : Type ℓ} (p : A → Bool) (xs : List A) (y : A) → p y ≡ true → any p (xs ++ y ∷ []) ≡ true
any_last p [] y h = ground arith
any_last p (x ∷ xs) y h = ground (arith, any_last p xs y h)

pub write-is_stored :
    (o : Option OrderDao) (old table : OrderTable)
    → write o old ≡ some table
    → (uuid : String) → is_stored uuid old ≡ true
    → is_stored uuid table ≡ true
write-is_stored none old table e uuid h = cc
write-is_stored (some row) old table e uuid h =
    subst (λ t. is_stored uuid t ≡ true) (some-injective _ _ e)
      (contains-insert String-discrete row.uuid uuid _ old h)

module _ {W : Type 0} (s : OrderManager W) where
  -- Every order that is stored in `s` is in the table.
  abbrev pub KeepsRows : OrderTable → Type 0
  KeepsRows old = (uuid : String) → is_stored uuid s.orders ≡ true → is_stored uuid old ≡ true

  pub IsAside-IsFramed : IsFramed (IsAside s) KeepsRows (λ order. Unit)
  unfolding upsert
  IsAside-IsFramed = record {
    world = λ s' w p. record {
      later = record { rows = p.later.rows; events = p.later.events; intents = p.later.intents };
      queue = p.queue;
      stopped = p.stopped;
    };
    admits = λ s' p. p.later.rows;
    undo = λ s' old h p. record {
      later = record { rows = h; events = p.later.events; intents = p.later.intents };
      queue = p.queue;
      stopped = p.stopped;
    };
    store = λ s' order old table g h e p. record {
      later = record {
        rows = λ uuid x. write-is_stored (map_to_db order) old table e uuid (h uuid x);
        events = p.later.events;
        intents = p.later.intents;
      };
      queue = p.queue;
      stopped = p.stopped;
    };
  }

  pub drop_rejected-IsAside :
      (order : Order) (s' : OrderManager W) → IsAside s s' → IsAside s (drop_rejected order s')
  drop_rejected-IsAside order s' p = record {
    later = record {
      rows = p.later.rows;
      events = λ uuid h.
          any_append (rejects uuid) (s'.published ++ order_rejected order.ticker_symbol order ∷ [])
            (runtime_error_captured order ∷ [])
            (any_append (rejects uuid) s'.published (order_rejected order.ticker_symbol order ∷ [])
              (p.later.events uuid h));
      intents = λ uuid h.
          erase_keeps_missing String-discrete order.uuid uuid s'.in_flight_orders
            (p.later.intents uuid h);
    };
    queue = p.queue;
    stopped = p.stopped;
  }

  pub drop_rejected-IsAnswered : (order : Order) → IsAnswered order.uuid (drop_rejected order s)
  drop_rejected-IsAnswered order = inr (
    any_append (rejects order.uuid) (s.published ++ order_rejected order.ticker_symbol order ∷ [])
        (runtime_error_captured order ∷ [])
        (any_last (rejects order.uuid) s.published (order_rejected order.ticker_symbol order)
          (holds-String-discrete order.uuid order.uuid refl)),
    lookup-erase_self String-discrete order.uuid s.in_flight_orders,
  )
