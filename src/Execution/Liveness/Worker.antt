-- ===== src/Execution/Liveness/Worker.antt =====
-- src/trading/orders/order_manager.py: `process_order_queue`, the loop of the thread.
use ml_crypto_trading.Prelude.{
  ℕ, zero, suc, ◌≤◌, String, List, [], ◌∷◌, false, length, All, inl, ◌≡◌, refl, ap, ◌∙◌, arith,
}
use mathlib.Core.Path.{subst}
use ml_crypto_trading.Orders.{Order}
use ml_crypto_trading.Execution.Effects.{
  Error, Outcome, returned, order_error, runtime_error, runtime_warning, other_error, proceed,
  ◌>>=◌, ◌>>◌,
}
use ml_crypto_trading.Execution.Effects.Ends.{Ends, returns, raises}
use ml_crypto_trading.Execution.Effects.Leads.{
  Leads, pure-Leads, modify-Leads, bind-Leads, attempt-Leads,
}
use ml_crypto_trading.Execution.State.{Services, OrderManager}
use ml_crypto_trading.Execution.Placing.{
  drop_rejected, on_runtime_error, work_on, take_next, process_next, unless_stopped,
  process_order_queue,
}
use ml_crypto_trading.Execution.Liveness.{
  IsAside, IsLater, IsAnswered, IsLater-refl, IsLater-trans, IsAnswered-IsLater,
  drop_rejected-IsAside, drop_rejected-IsAnswered,
}
use ml_crypto_trading.Execution.Liveness.Stored.{IsAbout, execute_order-Leads}

module _ {W : Type 0} (services : Services W) where
  module _ (s : OrderManager W) where
    on_runtime_error-Leads :
        (uuid : String) (error : Error)
        → Leads
            (λ s'. IsAbout uuid error × IsAside s s')
            (λ u s'. IsAside s s' × IsAnswered uuid s')
            (λ e s'. ⊥)
            (on_runtime_error services error)
    on_runtime_error-Leads uuid (order_error order) = modify-Leads _ (λ s' p. (
      drop_rejected-IsAside s order s' p.1,
      subst (λ u. IsAnswered u (drop_rejected order s')) p.0 (drop_rejected-IsAnswered s' order),
    ))
    on_runtime_error-Leads uuid runtime_error = record { at = λ s' p. absurd p.0 }
    on_runtime_error-Leads uuid runtime_warning = record { at = λ s' p. absurd p.0 }
    on_runtime_error-Leads uuid other_error = record { at = λ s' p. absurd p.0 }

    work_on-Leads :
        (order : Order)
        → Leads
            (IsAside s)
            (λ u s'. IsAside s s' × IsAnswered order.uuid s')
            (λ e s'. ⊥)
            (work_on services order)
    work_on-Leads order =
        attempt-Leads _
          (bind-Leads _ (execute_order-Leads services s order)
            (λ o. pure-Leads tt (λ s' h. (h.0, inl h.1))))
          (on_runtime_error-Leads order.uuid)

  finished :
      {Q : OrderManager W → Type 0} {o : Outcome (OrderManager W) Unit}
      → Ends (λ u. Q) (λ e s'. ⊥) o
      → (s' : OrderManager W) × (o ≡ returned tt s') × Q s'
  finished (returns h) = (_, refl, h)
  finished (raises h) = absurd h

  -- What a run of the thread leaves of the orders that were queued.
  pub record IsDrained (queue : List Order) (s s' : OrderManager W) : Type 0 where
    pub empty : s'.order_queue ≡ []
    pub later : IsLater s s'
    pub answered : All (λ (order : Order). IsAnswered order.uuid s') queue

  abbrev Drains : ℕ → List Order → OrderManager W → Type 0
  Drains n queue s =
      (s' : OrderManager W) × (process_order_queue services n s ≡ returned tt s')
      × IsDrained queue s s'

  -- One round of a thread that is not stopped.
  round_lem :
      (n : ℕ) (queue : List Order) (s s' : OrderManager W)
      → s.stopped ≡ false
      → s.order_queue ≡ queue
      → take_next services queue s ≡ returned tt s'
      → process_order_queue services (suc n) s ≡ process_order_queue services n s'
  unfolding process_order_queue ◌>>=◌
  round_lem n queue s s' running e t =
      ap
        (λ b. unless_stopped services (process_next services >> process_order_queue services n) b s)
        running
      ∙ ap (proceed (λ u. process_order_queue services n)) (ap (λ q. take_next services q s) e ∙ t)

  -- The queue with its first order taken off and worked on.
  step_lem :
      (order : Order) (queue : List Order) (s : OrderManager W)
      → (s' : OrderManager W) × (take_next services (order ∷ queue) s ≡ returned tt s')
        × IsLater s s'
        × (s'.order_queue ≡ queue)
        × (s'.stopped ≡ s.stopped)
        × IsAnswered order.uuid s'
  unfolding ◌>>=◌
  step_lem order queue s =
      let s1 = record s { order_queue = queue } in
      let (s', e, (aside, answered)) = finished (
        (work_on-Leads s1 order).at s1
          (record { later = IsLater-refl s1; queue = refl; stopped = refl })) in
      let later : IsLater s s' = record {
        rows = aside.later.rows;
        events = aside.later.events;
        intents = aside.later.intents;
      } in
      (s', e, later, aside.queue, aside.stopped, answered)

  drains :
      (n : ℕ) (queue : List Order) (s : OrderManager W)
      → s.stopped ≡ false
      → s.order_queue ≡ queue
      → length queue ≤ n
      → Drains n queue s
  unfolding process_order_queue
  drains zero [] s running e h =
      (s, refl, record { empty = e; later = IsLater-refl s; answered = tt })
  drains zero (order ∷ queue) s running e h = absurd (omega arith)
  drains (suc n) [] s running e h =
      let (s', e', d) = drains n [] s running e (omega arith) in
      (s', round_lem n [] s s running e refl ∙ e', d)
  drains (suc n) (order ∷ queue) s running e h =
      let (s', t, later, rest, stopped, answered) = step_lem order queue s in
      let (s'', e', d) = drains n queue s' (stopped ∙ running) rest (omega arith) in
      (
        s'',
        round_lem n (order ∷ queue) s s' running e t ∙ e',
        record {
          empty = d.empty;
          later = IsLater-trans later d.later;
          answered = (IsAnswered-IsLater order.uuid s' s'' d.later answered, d.answered);
        },
      )

  -- If the thread is not stopped and gets at least as many rounds as orders are queued, it comes back
  -- without an exception and with an empty queue, whatever the exchange and the database do: every
  -- order that was queued is then stored, or its rejection is published and it has no intent in flight;
  -- no stored order and no published rejection is lost, and no intent has come up.
  pub process_order_queue-IsDrained :
      (n : ℕ) (s : OrderManager W)
      → s.stopped ≡ false
      → length s.order_queue ≤ n
      → (s' : OrderManager W) × (process_order_queue services n s ≡ returned tt s')
        × IsDrained s.order_queue s s'
  process_order_queue-IsDrained n s running h = drains n s.order_queue s running refl h
