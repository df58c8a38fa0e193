-- ===== src/Health/Monitor/Replay.antt =====
-- src/trading/health/health_monitor.py: the published state changes against the state.
use ml_crypto_trading.Prelude.{
  ℕ, ◌≡◌, refl, sym, ap, ◌≢◌, inl, inr, Bool-cases, holds, if◌then◌else◌, Bool, true, false, Option,
  none, some, List, [], ◌∷◌, ◌++◌,
}
use mathlib.Core.Path.{subst₂}
use ml_crypto_trading.Health.Models.{TradingHealthState, State-discrete, ActiveCondition}
use ml_crypto_trading.Health.Permission.{PermissionSet, PermissionSet-discrete}
use ml_crypto_trading.Health.Registry.{
  Registry, RecoveryConfig, record_observation, resolve_manually, get_active_conditions,
}
use ml_crypto_trading.Health.Machine.{TradingHealthSnapshot, StateMachine, update}
use ml_crypto_trading.Health.Machine.Laws.{IsConsistent, update_lem}
use ml_crypto_trading.Health.Monitor.{
  Event, condition_detected, condition_resolved, state_changed, permissions_changed, Monitor,
  create, detected_events, resolved_events, state_change, state_events, permission_events,
  publish_snapshot_changes, refresh, Call, report, set, resolve, perform, run,
}
use ml_crypto_trading.Health.Monitor.Invariant.{IsSound, perform-IsSound, create-IsSound}

-- The events lead from state `s` to state `t`: each change starts at the state that the one before
-- it reached, and is a change.
abbrev pub Leads : TradingHealthState → List Event → TradingHealthState → Type 0
Leads s [] t = s ≡ t
Leads s (state_changed c ∷ es) t =
    (c.previous_state ≡ s) × (c.current_state ≢ s) × Leads c.current_state es t
Leads s (condition_detected c scope v m th ts ∷ es) t = Leads s es t
Leads s (condition_resolved c scope n ts ∷ es) t = Leads s es t
Leads s (permissions_changed st ps v ts ∷ es) t = Leads s es t

Leads-append :
    (s t u : TradingHealthState) (es fs : List Event)
    → Leads s es t
    → Leads t fs u
    → Leads s (es ++ fs) u
Leads-append s t u [] fs h k = rw h k
Leads-append s t u (state_changed c ∷ es) fs h k =
    (h.0, h.1, Leads-append c.current_state t u es fs h.2 k)
Leads-append s t u (condition_detected c scope v m th ts ∷ es) fs h k = Leads-append s t u es fs h k
Leads-append s t u (condition_resolved c scope n ts ∷ es) fs h k = Leads-append s t u es fs h k
Leads-append s t u (permissions_changed st ps v ts ∷ es) fs h k = Leads-append s t u es fs h k

state_change-Leads :
    (prev new : TradingHealthSnapshot) (ts : ℕ) (d : Dec (prev.state ≡ new.state))
    → Leads prev.state (if holds d then [] else state_change prev new ts) new.state
state_change-Leads prev new ts (yes p) = p
state_change-Leads prev new ts (no p) = (refl, λ e. p (sym e), refl)

permissions-Leads :
    (s st : TradingHealthState) (ps : PermissionSet) (v ts : ℕ) (b : Bool)
    → Leads s (if b then [] else permissions_changed st ps v ts ∷ []) s
permissions-Leads s st ps v ts true = refl
permissions-Leads s st ps v ts false = refl

changes-Leads :
    (prev new : TradingHealthSnapshot) (ts : ℕ)
    → Leads prev.state (publish_snapshot_changes prev new ts) new.state
unfolding publish_snapshot_changes
changes-Leads prev new ts =
    Leads-append prev.state new.state new.state (state_events prev new ts)
      (permission_events prev new ts)
      (state_change-Leads prev new ts (State-discrete prev.state new.state))
      (permissions-Leads new.state new.state new.effective_permissions new.version ts
        (holds (PermissionSet-discrete prev.effective_permissions new.effective_permissions)))

refresh-Leads :
    (r : Option TradingHealthState) (ts now : ℕ) (registry : Registry) (machine : StateMachine)
    → IsConsistent machine
    → let (m, events) = refresh r ts now registry machine in
      Leads machine.state events m.machine.state
unfolding refresh
refresh-Leads r ts now registry machine h =
    let cs = get_active_conditions registry in
    let u = update_lem machine cs r now h in
    elim (Bool-cases (update cs r now machine).1) [
      | inl e ↦ rw e (
          subst₂
            (λ s t.
              Leads s
                (publish_snapshot_changes machine.snapshot (update cs r now machine).0.snapshot ts)
                t)
            h.same_state u.consistent.same_state
            (changes-Leads machine.snapshot (update cs r now machine).0.snapshot ts))
      | inr e ↦ rw e (sym (ap (λ (m : StateMachine). m.state) (u.same e)))
    ]

detected-Leads :
    (s : TradingHealthState) (c : Option ActiveCondition) (ts : ℕ)
    → Leads s (detected_events c ts) s
detected-Leads s none ts = refl
detected-Leads s (some c) ts = refl

resolved-Leads :
    (s : TradingHealthState) (c : Option ActiveCondition) (ts : ℕ)
    → Leads s (resolved_events c ts) s
resolved-Leads s none ts = refl
resolved-Leads s (some c) ts = refl

perform-Leads :
    (c : Call) (m : Monitor)
    → IsSound m
    → let (m', events) = perform c m in Leads m.machine.state events m'.machine.state
unfolding perform
perform-Leads (report o now) m h =
    let (registry', seen) = record_observation o m.registry in
    let (m', events) = refresh none o.observed_at now registry' m.machine in
    Leads-append m.machine.state m.machine.state m'.machine.state
      (detected_events seen.detected o.observed_at)
      (resolved_events seen.resolved o.observed_at ++ events)
      (detected-Leads m.machine.state seen.detected o.observed_at)
      (Leads-append m.machine.state m.machine.state m'.machine.state
        (resolved_events seen.resolved o.observed_at) events
        (resolved-Leads m.machine.state seen.resolved o.observed_at)
        (refresh-Leads none o.observed_at now registry' m.machine h.consistent))
perform-Leads (set s ts now) m h = refresh-Leads (some s) ts now m.registry m.machine h.consistent
perform-Leads (resolve c scope ts now) m h =
    let (registry', resolved) = resolve_manually c scope m.registry in
    let (m', events) = refresh none ts now registry' m.machine in
    Leads-append m.machine.state m.machine.state m'.machine.state (resolved_events resolved ts)
      events (resolved-Leads m.machine.state resolved ts)
      (refresh-Leads none ts now registry' m.machine h.consistent)

run-Leads :
    (cs : List Call) (m : Monitor)
    → IsSound m
    → let (m', events) = run cs m in Leads m.machine.state events m'.machine.state
unfolding run
run-Leads [] m h = refl
run-Leads (c ∷ cs) m h =
    let (m', events) = perform c m in
    let (m'', rest) = run cs m' in
    Leads-append m.machine.state m'.machine.state m''.machine.state events rest
      (perform-Leads c m h) (run-Leads cs m' (perform-IsSound c m h))

-- However the monitor is called after its creation, the state changes that it publishes form an
-- unbroken chain of real changes from the initial state to the current one.
pub run-create-Leads :
    (config : RecoveryConfig) (s : TradingHealthState) (now : ℕ) (cs : List Call)
    → let (m, events) = run cs (create config s now) in Leads s events m.machine.state
run-create-Leads config s now cs = run-Leads cs (create config s now) (create-IsSound config s now)
