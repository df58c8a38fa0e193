-- ===== src/Health/Monitor/Invariant.antt =====
-- src/trading/health/health_monitor.py: the monitor between two calls.
use ml_crypto_trading.Prelude.{
  ℕ, String, ◌≡◌, refl, ◌⊎◌, inl, inr, not, ◌&&◌, Option, none, some, List, [], ◌∷◌, any,
}
use ml_crypto_trading.Prelude.Dict.{erase-IsValid}
use ml_crypto_trading.Health.Models.{
  TradingHealthState, trading, degraded, TradingPermission, HealthScope,
}
use ml_crypto_trading.Health.Transition.Safety.{IsSafe, evaluate-IsSafe}
use ml_crypto_trading.Health.Permission.Table.{grants, blocked, evaluate-table}
use ml_crypto_trading.Health.Registry.{
  RecoveryConfig, Key-discrete, Registry, record_observation, resolve_manually, make_key,
  get_active_conditions,
}
use ml_crypto_trading.Health.Registry.Laws.{IsKeyed, record_observation-IsKeyed}
use ml_crypto_trading.Health.Machine.{StateMachine}
use ml_crypto_trading.Health.Machine.Laws.{IsConsistent, init-IsConsistent, update_lem}
use ml_crypto_trading.Health.Monitor.{
  Monitor, create, refresh, has_permission, Call, report, set, resolve, perform, run,
}

-- The snapshot shows the machine and the registry, the state is safe for the active conditions, and
-- no condition is active twice for one scope.
pub record IsSound (m : Monitor) : Type 0 where
  pub consistent : IsConsistent m.machine
  pub current : m.machine.snapshot.active_conditions ≡ get_active_conditions m.registry
  pub safe : IsSafe m.machine.state (get_active_conditions m.registry)
  pub keyed : IsKeyed m.registry

nil-IsSafe : (s : TradingHealthState) → IsSafe s []
nil-IsSafe trading = refl
nil-IsSafe degraded = refl
nil-IsSafe _ = tt

pub create-IsSound :
    (config : RecoveryConfig) (s : TradingHealthState) (now : ℕ) → IsSound (create config s now)
create-IsSound config s now = record {
  consistent = init-IsConsistent s now;
  current = refl;
  safe = nil-IsSafe s;
  keyed = tt;
}

refresh-IsSound :
    (r : Option TradingHealthState) (ts now : ℕ) (registry : Registry) (machine : StateMachine)
    → IsConsistent machine
    → IsKeyed registry
    → (r ≡ none) ⊎ IsSafe machine.state (get_active_conditions registry)
    → IsSound (refresh r ts now registry machine).0
unfolding refresh
refresh-IsSound r ts now registry machine c k s =
    let u = update_lem machine (get_active_conditions registry) r now c in
    record {
      consistent = u.consistent;
      current = u.conditions;
      safe = rw u.state (evaluate-IsSafe machine.state (get_active_conditions registry) r s);
      keyed = k;
    }

pub perform-IsSound : (c : Call) (m : Monitor) → IsSound m → IsSound (perform c m).0
unfolding perform resolve_manually
perform-IsSound (report o now) m h =
    refresh-IsSound none o.observed_at now (record_observation o m.registry).0 m.machine
      h.consistent (record_observation-IsKeyed o m.registry h.keyed) (inl refl)
perform-IsSound (set s ts now) m h =
    refresh-IsSound (some s) ts now m.registry m.machine h.consistent h.keyed (inr h.safe)
perform-IsSound (resolve c scope ts now) m h =
    refresh-IsSound none ts now (resolve_manually c scope m.registry).0 m.machine h.consistent
      (erase-IsValid Key-discrete _ (make_key c scope) m.registry.active h.keyed) (inl refl)

run-IsSound : (cs : List Call) (m : Monitor) → IsSound m → IsSound (run cs m).0
unfolding run
run-IsSound [] m h = h
run-IsSound (c ∷ cs) m h = run-IsSound cs (perform c m).0 (perform-IsSound c m h)

-- However the monitor is called after its creation, its snapshot shows the current state, version,
-- permissions and active conditions, the engine is in TRADING only without any active condition and
-- in DEGRADED only without a critical global one, and no condition is active twice for one scope.
pub run-create-IsSound :
    (config : RecoveryConfig) (s : TradingHealthState) (now : ℕ) (cs : List Call)
    → IsSound (run cs (create config s now)).0
run-create-IsSound config s now cs =
    run-IsSound cs (create config s now) (create-IsSound config s now)

-- However the monitor was called, it grants an action on a scope exactly if the current state grants
-- it and no condition that is now active in the registry and applies to the scope blocks it there.
pub has_permission-table :
    (config : RecoveryConfig) (s : TradingHealthState) (now : ℕ) (cs : List Call)
    (scope : HealthScope) (p : TradingPermission) (exchange_name portfolio_key : Option String)
    → let m = (run cs (create config s now)).0 in
      has_permission scope p exchange_name portfolio_key m ≡ (
        grants m.machine.state p
        && not (
            any
              (blocked (some scope) exchange_name portfolio_key m.machine.state p)
              (get_active_conditions m.registry)))
unfolding has_permission
has_permission-table config s now cs scope p exchange_name portfolio_key =
    let m = (run cs (create config s now)).0 in
    rw (← (run-create-IsSound config s now cs).current) (
      evaluate-table (some scope) exchange_name portfolio_key m.machine.state p
        m.machine.snapshot.active_conditions)
