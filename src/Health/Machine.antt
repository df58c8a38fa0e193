-- ===== src/Health/Machine.antt =====
-- src/trading/health/state_machine.py. `datetime.now` is the argument `now`; the lock makes each
-- method one step.
pub mod Laws
use ml_crypto_trading.Prelude.{
  ℕ, ◌+◌, String, Bool, true, false, not, ◌||◌, Option, none, some, List, [], holds, if◌then◌else◌,
}
use ml_crypto_trading.Prelude.Dict.{Dict}
use ml_crypto_trading.Health.Models.{
  TradingHealthState, State-discrete, Value, HealthScope, ActiveCondition, Conditions-discrete,
  global_scope,
}
use ml_crypto_trading.Health.Transition
use ml_crypto_trading.Health.Permission
use ml_crypto_trading.Health.Permission.{PermissionSet}

pub record TradingHealthSnapshot : Type 0 where
  pub state : TradingHealthState
  pub active_conditions : List ActiveCondition
  pub effective_permissions : PermissionSet
  pub version : ℕ
  pub updated_at : ℕ
  pub details : Dict String Value

pub record StateMachine : Type 0 where
  pub state : TradingHealthState
  pub version : ℕ
  pub snapshot : TradingHealthSnapshot

-- `_build_snapshot`
abbrev pub build_snapshot :
    TradingHealthState → List ActiveCondition → ℕ → ℕ → TradingHealthSnapshot
build_snapshot state cs version now = record {
  state = state;
  active_conditions = cs;
  effective_permissions = Permission.evaluate (some global_scope) none none state cs;
  version = version;
  updated_at = now;
  details = [];
}

-- `TradingHealthStateMachine.__init__`
abbrev pub init : TradingHealthState → ℕ → StateMachine
init initial_state now = record {
  state = initial_state;
  version = 1;
  snapshot = build_snapshot initial_state [] 1 now;
}

-- Whether `update` has anything to do.
abbrev pub has_changed : StateMachine → TradingHealthState → List ActiveCondition → Bool
has_changed m next_state cs =
    not (holds (State-discrete next_state m.state))
    || not (holds (Conditions-discrete cs m.snapshot.active_conditions))

-- `update`: the flag, and the machine whose snapshot is the result.
unfoldable pub update :
    List ActiveCondition → Option TradingHealthState → ℕ → StateMachine → StateMachine × Bool
update cs manual_override now m =
    let next_state = Transition.evaluate m.state cs manual_override in
    if has_changed m next_state cs
    then (
      record {
        state = next_state;
        version = m.version + 1;
        snapshot = build_snapshot next_state cs (m.version + 1) now;
      },
      true,
    )
    else (m, false)

-- `evaluate_scope_permissions`
abbrev pub evaluate_scope_permissions :
    HealthScope → Option String → Option String → StateMachine → PermissionSet
evaluate_scope_permissions scope exchange_name portfolio_key m =
    Permission.evaluate (some scope) exchange_name portfolio_key m.state
      m.snapshot.active_conditions
