-- ===== src/Execution/Guard.antt =====
-- src/trading/orders/order_manager.py: the intents of the orders that wait in the queue.
pub mod Asked
pub mod Taken
pub mod Steps
use ml_crypto_trading.Prelude.{
  String, some, List, [], ◌∷◌, Bool, false, any, holds, All, ◌≡◌, sym, ◌∙◌, arith,
}
use mathlib.Core.Logic.{if_neg}
use ml_crypto_trading.Prelude.Text.{String-discrete, holds-String-discrete}
use ml_crypto_trading.Prelude.Dict.{Dict, lookup, erase, lookup-erase}
use ml_crypto_trading.Prelude.Int.{ℤ}
use ml_crypto_trading.Prelude.Decimal.{DecimalContext}
use ml_crypto_trading.Orders.{Order, TradeAction}
use ml_crypto_trading.Session.Manager.Sound.{IsSound}
use ml_crypto_trading.Session.Manager.Fills.{record_order_fill}
use ml_crypto_trading.Session.Manager.Fills.Sound.{fill_in-IsSound}
use ml_crypto_trading.Session.Manager.Fills.Named.{fill_in-IsNamed}
use ml_crypto_trading.Execution.OrderTable.Rows.{AllRows, upsert-AllRows, get_non_terminal-AllRows}
use ml_crypto_trading.Execution.State.{OrderManager}
use ml_crypto_trading.Execution.Stable.{IsFramed}
use ml_crypto_trading.Execution.Stable.Saved.{IsRecording}
use ml_crypto_trading.Execution.Stable.Reconciled.{IsReconciling}
use ml_crypto_trading.Execution.Orderly.{IsPositive, HasQuantity}

abbrev pub Intents : Type 0
Intents = Dict String (String × TradeAction)

abbrev pub same_uuid : String → String → Bool
same_uuid a b = holds (String-discrete a b)

-- An order under the identifier waits in the queue.
abbrev pub is_queued : String → List Order → Bool
is_queued uuid queue = any (λ (o : Order). same_uuid o.uuid uuid) queue

abbrev pub Distinct : List Order → Type 0
Distinct [] = Unit
Distinct (o ∷ queue) = (is_queued o.uuid queue ≡ false) × Distinct queue

-- The intent of the order is in flight.
abbrev pub IsIntended : Intents → Order → Type 0
IsIntended intents o =
    lookup String-discrete o.uuid intents ≡ some (o.ticker_symbol, o.trade_action)

-- An order that is not queued, for a positive quantity.
abbrev pub IsElsewhere : List Order → String → ℤ → Type 0
IsElsewhere queue uuid quantity = IsPositive quantity × (is_queued uuid queue ≡ false)

abbrev pub IsOther : List Order → Order → Type 0
IsOther queue order = IsElsewhere queue order.uuid order.quantity

-- The queue is this one; its orders have identifiers of their own and their intents in flight, and no
-- stored order is one of them.
pub record IsHeld {W : Type 0} (queue : List Order) (s : OrderManager W) : Type 0 where
  pub session : IsSound s.session_manager
  pub waiting : s.order_queue ≡ queue
  pub distinct : Distinct queue
  pub quantities : All HasQuantity queue
  pub intended : All (IsIntended s.in_flight_orders) queue
  pub rows : AllRows (IsElsewhere queue) s.orders

lookup_other :
    (uuid j : String) (intents : Intents)
    → same_uuid j uuid ≡ false
    → lookup String-discrete j (erase String-discrete uuid intents)
      ≡ lookup String-discrete j intents
lookup_other uuid j intents h =
    lookup-erase String-discrete uuid j intents ∙ elim (String-discrete uuid j) [
      | yes p ↦ absurd (cc (holds-String-discrete j uuid (sym p)))
      | no p ↦ if_neg (String-discrete uuid j) p _ _
    ]

erase-IsIntended :
    (uuid : String) (intents : Intents) (queue : List Order)
    → is_queued uuid queue ≡ false
    → All (IsIntended intents) queue
    → All (IsIntended (erase String-discrete uuid intents)) queue
erase-IsIntended uuid intents [] h k = tt
erase-IsIntended uuid intents (o ∷ queue) h k = (
  lookup_other uuid o.uuid intents (ground arith) ∙ k.0,
  erase-IsIntended uuid intents queue (ground arith) k.1,
)

module _ {W : Type 0} (queue : List Order) where
  pub IsHeld-IsFramed :
      IsFramed {W = W} (IsHeld queue) (AllRows (IsElsewhere queue)) (IsOther queue)
  IsHeld-IsFramed = record {
    world = λ s w p. record {
      session = p.session;
      waiting = p.waiting;
      distinct = p.distinct;
      quantities = p.quantities;
      intended = p.intended;
      rows = p.rows;
    };
    admits = λ s p. p.rows;
    undo = λ s old h p. record {
      session = p.session;
      waiting = p.waiting;
      distinct = p.distinct;
      quantities = p.quantities;
      intended = p.intended;
      rows = h;
    };
    store = λ s order old table g h e p. record {
      session = p.session;
      waiting = p.waiting;
      distinct = p.distinct;
      quantities = p.quantities;
      intended = p.intended;
      rows = upsert-AllRows (IsElsewhere queue) order old table g h e;
    };
  }

  pub IsHeld-IsRecording :
      (decimals : DecimalContext) → IsRecording decimals {W = W} (IsHeld queue) (IsOther queue)
  unfolding record_order_fill
  IsHeld-IsRecording decimals = record {
    publish = λ s events p. record {
      session = p.session;
      waiting = p.waiting;
      distinct = p.distinct;
      quantities = p.quantities;
      intended = p.intended;
      rows = p.rows;
    };
    pop = λ s order g p. record {
      session = p.session;
      waiting = p.waiting;
      distinct = p.distinct;
      quantities = p.quantities;
      intended = erase-IsIntended order.uuid s.in_flight_orders queue g.1 p.intended;
      rows = p.rows;
    };
    name = λ order hash g. g;
    fill = λ s head ids order g p.
        let m = s.session_manager in
        let (r, e, sound) =
          fill_in-IsSound decimals head ids order m.current_session m g.0 p.session
            p.session.settled in
        (
          r,
          e,
          fill_in-IsNamed decimals order head ids m.current_session m r e,
          record {
            session = sound;
            waiting = p.waiting;
            distinct = p.distinct;
            quantities = p.quantities;
            intended = p.intended;
            rows = p.rows;
          },
        );
  }

  pub IsHeld-IsReconciling : IsReconciling {W = W} (IsHeld queue) (IsOther queue)
  IsHeld-IsReconciling = record {
    load = λ s p. get_non_terminal-AllRows (IsElsewhere queue) s.orders p.rows;
    update = λ order found g. g;
    restatus = λ order status g. g;
  }
