-- ===== src/Health/Monitor.antt =====
-- src/trading/health/health_monitor.py. What the monitor publishes on the event bus is the list of
-- events that each method returns; `now` is the clock that the state machine reads.
pub mod Invariant
pub mod Replay
use ml_crypto_trading.Prelude.{
  ℕ, String, Bool, Option, none, some, List, [], ◌∷◌, ◌++◌, length, holds, if◌then◌else◌,
}
use ml_crypto_trading.Health.Models.{
  TradingHealthState, State-discrete, TradingHealthCondition, TradingPermission, Severity, Value,
  HealthScope, HealthObservation, ActiveCondition,
}
use ml_crypto_trading.Health.Permission.{PermissionSet, PermissionSet-discrete, member}
use ml_crypto_trading.Health.Registry.{
  RecoveryConfig, Registry, record_observation, resolve_manually, get_active_conditions,
}
use ml_crypto_trading.Health.Machine.{
  TradingHealthSnapshot, StateMachine, init, update, evaluate_scope_permissions,
}

pub record StateChange : Type 0 where
  pub previous_state : TradingHealthState
  pub current_state : TradingHealthState
  pub version : ℕ
  pub active_conditions_count : ℕ
  pub timestamp : ℕ

pub data Event : Type 0 where
  condition_detected :
      TradingHealthCondition → HealthScope → Severity → Option Value → Option Value → ℕ → Event
  condition_resolved : TradingHealthCondition → HealthScope → ℕ → ℕ → Event
  state_changed : StateChange → Event
  permissions_changed : TradingHealthState → PermissionSet → ℕ → ℕ → Event

pub record Monitor : Type 0 where
  pub registry : Registry
  pub machine : StateMachine

-- `HealthMonitor.create`
abbrev pub create : RecoveryConfig → TradingHealthState → ℕ → Monitor
create config initial_state now = record {
  registry = record { config = config; active = [] };
  machine = init initial_state now;
}

abbrev pub detected_events : Option ActiveCondition → ℕ → List Event
detected_events none ts = []
detected_events (some c) ts =
    condition_detected c.condition c.scope c.severity c.measured_value c.threshold ts ∷ []

abbrev pub resolved_events : Option ActiveCondition → ℕ → List Event
resolved_events none ts = []
resolved_events (some c) ts =
    condition_resolved c.condition c.scope c.consecutive_healthy_checks ts ∷ []

abbrev pub state_change : TradingHealthSnapshot → TradingHealthSnapshot → ℕ → List Event
state_change prev new ts =
    state_changed (record {
      previous_state = prev.state;
      current_state = new.state;
      version = new.version;
      active_conditions_count = length new.active_conditions;
      timestamp = ts;
    })
    ∷ []

abbrev pub state_events : TradingHealthSnapshot → TradingHealthSnapshot → ℕ → List Event
state_events prev new ts =
    if holds (State-discrete prev.state new.state) then [] else state_change prev new ts

abbrev pub permission_events : TradingHealthSnapshot → TradingHealthSnapshot → ℕ → List Event
permission_events prev new ts =
    if holds (PermissionSet-discrete prev.effective_permissions new.effective_permissions)
    then []
    else permissions_changed new.state new.effective_permissions new.version ts ∷ []

-- `_publish_snapshot_changes`
pub publish_snapshot_changes : TradingHealthSnapshot → TradingHealthSnapshot → ℕ → List Event
publish_snapshot_changes prev new ts = state_events prev new ts ++ permission_events prev new ts

-- The end that the three methods share: update the machine from the registry, and publish what
-- changed since the snapshot before.
unfoldable pub refresh :
    Option TradingHealthState → ℕ → ℕ → Registry → StateMachine → Monitor × List Event
unfolding publish_snapshot_changes
refresh manual_override ts now registry machine =
    let (machine', changed) = update (get_active_conditions registry) manual_override now machine in
    (
      record { registry = registry; machine = machine' },
      if changed then publish_snapshot_changes machine.snapshot machine'.snapshot ts else [],
    )

-- `report_observation`
unfoldable pub report_observation : HealthObservation → ℕ → Monitor → Monitor × List Event
report_observation o now m =
    let (registry', report) = record_observation o m.registry in
    let (m', events) = refresh none o.observed_at now registry' m.machine in
    (
      m',
      detected_events report.detected o.observed_at
          ++ (resolved_events report.resolved o.observed_at ++ events),
    )

-- `set_state`; `ts` is `current_time or datetime.now`
unfoldable pub set_state : TradingHealthState → ℕ → ℕ → Monitor → Monitor × List Event
set_state target_state ts now m = refresh (some target_state) ts now m.registry m.machine

-- `resolve_condition`
unfoldable pub resolve_condition :
    TradingHealthCondition → HealthScope → ℕ → ℕ → Monitor → Monitor × List Event
resolve_condition condition scope ts now m =
    let (registry', resolved) = resolve_manually condition scope m.registry in
    let (m', events) = refresh none ts now registry' m.machine in
    (m', resolved_events resolved ts ++ events)

-- `has_permission`
unfoldable pub has_permission :
    HealthScope → TradingPermission → Option String → Option String → Monitor → Bool
has_permission scope permission exchange_name portfolio_key m =
    member permission (evaluate_scope_permissions scope exchange_name portfolio_key m.machine)

-- A call of one of the methods, with the moments that its clocks show.
pub data Call : Type 0 where
  report : HealthObservation → ℕ → Call
  set : TradingHealthState → ℕ → ℕ → Call
  resolve : TradingHealthCondition → HealthScope → ℕ → ℕ → Call

unfoldable pub perform : Call → Monitor → Monitor × List Event
unfolding report_observation set_state resolve_condition
perform (report o now) m = report_observation o now m
perform (set s ts now) m = set_state s ts now m
perform (resolve c scope ts now) m = resolve_condition c scope ts now m

-- Any sequence of calls, and all that is published.
unfoldable pub run : List Call → Monitor → Monitor × List Event
unfolding perform
run [] m = (m, [])
run (c ∷ cs) m =
    let (m', events) = perform c m in let (m'', rest) = run cs m' in (m'', events ++ rest)
