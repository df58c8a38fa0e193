-- ===== src/Execution/Orderly.antt =====
-- src/trading/orders/order_manager.py: what every state of an order manager satisfies.
pub mod Runs
use mathlib.Core.Path.{subst}
use ml_crypto_trading.Prelude.{List, [], ◌∷◌, ◌++◌, true, All, ◌≡◌}
use ml_crypto_trading.Prelude.Int.{ℤ, ltb_ℤ}
use ml_crypto_trading.Prelude.Decimal.{DecimalContext, zero_dec}
use ml_crypto_trading.Orders.{Order}
use ml_crypto_trading.Session.Manager.Sound.{IsSound}
use ml_crypto_trading.Session.Manager.Fills.{record_order_fill}
use ml_crypto_trading.Session.Manager.Fills.Sound.{fill_in-IsSound}
use ml_crypto_trading.Session.Manager.Fills.Named.{fill_in-IsNamed}
use ml_crypto_trading.Execution.OrderTable.{OrderTable}
use ml_crypto_trading.Execution.OrderTable.Rows.{AllRows, upsert-AllRows, get_non_terminal-AllRows}
use ml_crypto_trading.Execution.State.{OrderManager}
use ml_crypto_trading.Execution.Stable.{IsFramed}
use ml_crypto_trading.Execution.Stable.Saved.{IsRecording}
use ml_crypto_trading.Execution.Stable.Reconciled.{IsReconciling}

abbrev pub IsPositive : ℤ → Type 0
IsPositive quantity = ltb_ℤ zero_dec quantity ≡ true

abbrev pub HasQuantity : Order → Type 0
HasQuantity order = IsPositive order.quantity

abbrev pub RowsPositive : OrderTable → Type 0
RowsPositive table = AllRows (λ uuid quantity. IsPositive quantity) table

-- The session is sound, and every order that is stored or queued is for a positive quantity.
pub record IsOrderly {W : Type 0} (s : OrderManager W) : Type 0 where
  pub session : IsSound s.session_manager
  pub rows : RowsPositive s.orders
  pub queue : All HasQuantity s.order_queue

pub append-All :
    (orders : List Order) (order : Order)
    → All HasQuantity orders
    → HasQuantity order
    → All HasQuantity (orders ++ order ∷ [])
append-All [] order h p = (p, tt)
append-All (o ∷ orders) order h p = (h.0, append-All orders order h.1 p)

module _ {W : Type 0} where
  pub IsOrderly-IsFramed : IsFramed {W = W} IsOrderly RowsPositive HasQuantity
  IsOrderly-IsFramed = record {
    world = λ s w p. record { session = p.session; rows = p.rows; queue = p.queue };
    admits = λ s p. p.rows;
    undo = λ s old h p. record { session = p.session; rows = h; queue = p.queue };
    store = λ s order old table g h e p. record {
      session = p.session;
      rows = upsert-AllRows (λ uuid quantity. IsPositive quantity) order old table g h e;
      queue = p.queue;
    };
  }

  pub IsOrderly-IsRecording :
      (decimals : DecimalContext) → IsRecording decimals {W = W} IsOrderly HasQuantity
  unfolding record_order_fill
  IsOrderly-IsRecording decimals = record {
    publish = λ s events p. record { session = p.session; rows = p.rows; queue = p.queue };
    pop = λ s order g p. record { session = p.session; rows = p.rows; queue = p.queue };
    name = λ order hash g. g;
    fill = λ s head ids order g p.
        let m = s.session_manager in
        let (r, e, sound) =
          fill_in-IsSound decimals head ids order m.current_session m g p.session
            p.session.settled in
        (
          r,
          e,
          fill_in-IsNamed decimals order head ids m.current_session m r e,
          record { session = sound; rows = p.rows; queue = p.queue },
        );
  }

  pub dequeue-IsOrderly :
      (s : OrderManager W) (order : Order) (rest : List Order)
      → s.order_queue ≡ order ∷ rest
      → IsOrderly s
      → HasQuantity order × IsOrderly (record s { order_queue = rest })
  dequeue-IsOrderly s order rest e p =
      let q = subst (All HasQuantity) e p.queue in
      (q.0, record { session = p.session; rows = p.rows; queue = q.1 })

  pub IsOrderly-IsReconciling : IsReconciling {W = W} IsOrderly HasQuantity
  IsOrderly-IsReconciling = record {
    load = λ s p. get_non_terminal-AllRows (λ uuid quantity. IsPositive quantity) s.orders p.rows;
    update = λ order found g. g;
    restatus = λ order status g. g;
  }

  pub enqueue-IsOrderly :
      (s : OrderManager W) (order : Order)
      → HasQuantity order
      → IsOrderly s
      → IsOrderly (record s { order_queue = s.order_queue ++ order ∷ [] })
  enqueue-IsOrderly s order g p = record {
    session = p.session;
    rows = p.rows;
    queue = append-All s.order_queue order p.queue g;
  }
