-- ===== src/Execution/Stable/Placed.antt =====
-- src/trading/orders/order_manager.py: properties that `open_order`, `execute_order` and the thread of
-- the order queue keep.
use ml_crypto_trading.Prelude.{
  ℕ, zero, suc, String, Option, none, some, List, [], ◌∷◌, ◌++◌, Bool, true, false, ◌≡◌, refl,
  if_intro, if_cases,
}
use ml_crypto_trading.Prelude.Text.{is_empty_text}
use ml_crypto_trading.Prelude.Decimal.{DecimalContext}
use ml_crypto_trading.Orders.{Order}
use ml_crypto_trading.Execution.OrderTable.{OrderTable}
use ml_crypto_trading.Execution.Effects.{
  Error, Action, ◌>>=◌, order_error, runtime_error, runtime_warning, other_error,
}
use ml_crypto_trading.Execution.Effects.Ends.{
  Ends, returns, Keeps, pure-Keeps, raise-Keeps, gets-Keeps, modify-Keeps, bind-Keeps,
  attempt-Keeps,
}
use ml_crypto_trading.Execution.State.{Services, OrderManager, add_intent}
use ml_crypto_trading.Execution.Placing.{
  OrderRequest, new_order, as_rejected, reject_order, place_and_store, execute_order,
  on_runtime_error, work_on, take_next, unless_stopped, process_order_queue, choose_uuid, submit,
  open_order,
}
use ml_crypto_trading.Execution.Stable.{
  Any, IsFramed, call-Keeps, unit_of_work-Keeps, upsert_order-Keeps,
}
use ml_crypto_trading.Execution.Stable.Saved.{IsRecording}

-- The error of `execute_order`, about an order in `G`.
abbrev pub IsOrderError : (Order → Type 0) → Error → Type 0
IsOrderError G (order_error order) = G order
IsOrderError G _ = ⊥

-- No exception.
abbrev pub Nothing : Error → Type 0
Nothing error = ⊥

module _ (decimals : DecimalContext) {W : Type 0} (services : Services W)
    {P : OrderManager W → Type 0} {Admits : OrderTable → Type 0} {G : Order → Type 0}
    (framed : IsFramed P Admits G) (recording : IsRecording decimals P G)
    (reject : (order : Order) → G order → G (as_rejected order)) where
  reject_order-Keeps :
      (order : Order) → G order → Keeps P G (IsOrderError G) (reject_order services order)
  reject_order-Keeps order g =
      bind-Keeps _
        (attempt-Keeps _
          (unit_of_work-Keeps framed services
            (upsert_order-Keeps framed services _ (reject order g)))
          (λ error r. pure-Keeps tt tt))
        (λ u q. raise-Keeps _ (reject order g))

  place_and_store-Keeps : (order : Order) → G order → Keeps P G Any (place_and_store services order)
  place_and_store-Keeps order g = bind-Keeps _ (call-Keeps framed _) (λ u q.
      bind-Keeps _ (unit_of_work-Keeps framed services (upsert_order-Keeps framed services order g))
        (λ u q. pure-Keeps _ g))

  pub execute_order-Keeps :
      (order : Order) → G order → Keeps P G (IsOrderError G) (execute_order services order)
  unfolding execute_order
  execute_order-Keeps order g =
      bind-Keeps {Q = G} _ (gets-Keeps _ (λ s p. if_intro G _ (recording.name order _ g) g))
        (λ known h.
          attempt-Keeps {R = Any} _ (place_and_store-Keeps known h)
            (λ error r. reject_order-Keeps known h))

  on_runtime_error-Keeps :
      (error : Error)
      → IsOrderError G error
      → Keeps P (λ u. Unit) Nothing (on_runtime_error services error)
  on_runtime_error-Keeps (order_error order) g =
      modify-Keeps _
        (λ s p. recording.publish _ _ (recording.publish _ _ (recording.pop s order g p)))
  on_runtime_error-Keeps runtime_error g = elim g [ ]
  on_runtime_error-Keeps runtime_warning g = elim g [ ]
  on_runtime_error-Keeps other_error g = elim g [ ]

  pub work_on-Keeps :
      (order : Order) → G order → Keeps P (λ u. Unit) Nothing (work_on services order)
  work_on-Keeps order g =
      attempt-Keeps _ (bind-Keeps _ (execute_order-Keeps order g) (λ o h. pure-Keeps tt tt))
        on_runtime_error-Keeps

  pub take_next-Ends :
      ((s : OrderManager W) (order : Order) (rest : List Order)
        → s.order_queue ≡ order ∷ rest
        → P s
        → G order × P (record s { order_queue = rest }))
      → (queue : List Order) (s : OrderManager W) → s.order_queue ≡ queue
      → P s
      → Ends (λ u s'. Unit × P s') (λ error s'. ⊥ × P s') (take_next services queue s)
  unfolding ◌>>=◌
  take_next-Ends dequeue [] s e p = returns (tt, p)
  take_next-Ends dequeue (order ∷ rest) s e p =
      let (g, p') = dequeue s order rest e p in (work_on-Keeps order g).at _ p'

  choose_uuid-Keeps :
      (o : Option String) → Keeps P (λ uuid. Unit) (IsOrderError G) (choose_uuid services o)
  choose_uuid-Keeps none = record {
    at = λ s p. returns (tt, framed.world s (services.uuid4 s.world).1 p);
  }
  choose_uuid-Keeps (some uuid) = record {
    at = λ s p.
        if_cases (Ends (λ u s'. Unit × P s') (λ error s'. IsOrderError G error × P s'))
          (is_empty_text uuid) (λ e. returns (tt, framed.world s (services.uuid4 s.world).1 p))
          (λ e. returns (tt, p));
  }

  -- What opening an order does besides executing it.
  module _ (intent : (s : OrderManager W) (order : Order) → G order → P s → P (add_intent order s))
      (enqueue : (s : OrderManager W) (order : Order)
        → G order
        → P s
        → P (record s { order_queue = s.order_queue ++ order ∷ [] })) where
    submit-Keeps :
        (order : Order) (synchronous : Bool)
        → G order
        → Keeps P G (IsOrderError G) (submit services order synchronous)
    submit-Keeps order true g = execute_order-Keeps order g
    submit-Keeps order false g =
        bind-Keeps _ (modify-Keeps _ (λ s p. enqueue s order g p)) (λ u q. pure-Keeps _ g)

    pub open_order-Keeps :
        (r : OrderRequest)
        → ((uuid head : String) → G (new_order r uuid head))
        → Keeps P G (IsOrderError G) (open_order services r)
    unfolding open_order
    open_order-Keeps r g =
        bind-Keeps {Q = λ (head : String). Unit} _ (gets-Keeps _ (λ s p. tt)) (λ head q.
          bind-Keeps _ (choose_uuid-Keeps r.uuid) (λ uuid q.
            bind-Keeps _ (modify-Keeps _ (λ s p. intent s _ (g uuid head) p)) (λ u q.
              bind-Keeps {Q = λ (b : Bool). Unit} _ (gets-Keeps _ (λ s p. tt))
                (λ synchronous q. submit-Keeps _ synchronous (g uuid head)))))

-- `P` survives that an order is taken off the queue and worked on.
module _ {W : Type 0} (services : Services W) {P : OrderManager W → Type 0}
    (take : (queue : List Order) (s : OrderManager W)
      → s.order_queue ≡ queue
      → P s
      → Ends (λ u s'. Unit × P s') (λ error s'. ⊥ × P s') (take_next services queue s)) where
  unless_stopped-Keeps :
      {rounds : Action (OrderManager W) Unit}
      → Keeps P (λ u. Unit) Nothing rounds
      → (stopped : Bool) → Keeps P (λ u. Unit) Nothing (unless_stopped services rounds stopped)
  unless_stopped-Keeps k true = pure-Keeps tt tt
  unless_stopped-Keeps k false = k

  pub process_order_queue-Keeps :
      (n : ℕ) → Keeps P (λ u. Unit) Nothing (process_order_queue services n)
  unfolding process_order_queue
  process_order_queue-Keeps zero = pure-Keeps tt tt
  process_order_queue-Keeps (suc n) =
      bind-Keeps {Q = λ b. Unit} _ (gets-Keeps _ (λ s p. tt)) (λ stopped q.
        unless_stopped-Keeps
          (bind-Keeps _ (record { at = λ s p. take s.order_queue s refl p })
            (λ u q. process_order_queue-Keeps n))
          stopped)
