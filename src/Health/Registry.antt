-- ===== src/Health/Registry.antt =====
-- src/trading/health/condition_registry.py and src/trading/health/recovery_policy.py: the active
-- conditions, by condition and scope. The lock makes each method one step.
pub mod Laws
pub mod Recovery
use ml_crypto_trading.Prelude.{
  ℕ, ◌+◌, String, Bool, true, false, not, Option, none, some, List, [], ltb, leb, if◌then◌else◌,
}
use ml_crypto_trading.Prelude.Dict.{Dict, values, lookup, insert, erase}
use ml_crypto_trading.Prelude.Text.{String-discrete}
use ml_crypto_trading.Health.Models.{
  Severity, TradingHealthCondition, ScopeType, HealthScope, HealthObservation, ActiveCondition,
}

-- `stable_period_seconds` in microseconds. No method reads it.
pub record RecoveryConfig : Type 0 where
  pub automatic : Bool
  pub stable_period : ℕ
  pub required_successful_checks : ℕ

-- `RecoveryPolicy.default`
abbrev pub default_config : RecoveryConfig
default_config = record {
  automatic = true;
  stable_period = 10_000_000;
  required_successful_checks = 3;
}

abbrev pub is_fatal : Severity → Bool
is_fatal Severity.fatal = true
is_fatal _ = false

-- `RecoveryPolicy.can_resolve`: `(current_time - last_observed_at).total_seconds() >= 0.0` says that
-- the current time is not the earlier one.
unfoldable pub can_resolve : RecoveryConfig → ActiveCondition → ℕ → Bool
can_resolve config c current_time =
    if is_fatal c.severity
    then false
    else if not config.automatic
    then false
    else if ltb c.consecutive_healthy_checks config.required_successful_checks
    then false
    else leb c.last_observed_at current_time

-- The scope's type stands for its string value in the code's key.
abbrev pub Key : Type 0
Key = TradingHealthCondition × ScopeType × String

unfoldable pub Key-discrete : Discrete Key
Key-discrete = hlevel String-discrete

-- `_make_key`
abbrev pub make_key : TradingHealthCondition → HealthScope → Key
make_key condition scope = (condition, scope.scope_type, scope.identifier)

abbrev pub Conditions : Type 0
Conditions = Dict Key ActiveCondition

pub record Registry : Type 0 where
  pub config : RecoveryConfig
  pub active : Conditions

pub record Recorded : Type 0 where
  pub changed : Bool
  pub detected : Option ActiveCondition
  pub resolved : Option ActiveCondition

abbrev unchanged : Recorded
unchanged = record { changed = false; detected = none; resolved = none }

abbrev pub new_condition : HealthObservation → ActiveCondition
new_condition o = record {
  condition = o.condition;
  scope = o.scope;
  severity = o.severity;
  first_detected_at = o.observed_at;
  last_observed_at = o.observed_at;
  measured_value = o.measured_value;
  threshold = o.threshold;
  consecutive_healthy_checks = 0;
  metadata = o.metadata;
}

abbrev pub seen_again : ActiveCondition → HealthObservation → ActiveCondition
seen_again c o = record {
  condition = c.condition;
  scope = c.scope;
  severity = o.severity;
  first_detected_at = c.first_detected_at;
  last_observed_at = o.observed_at;
  measured_value = o.measured_value;
  threshold = o.threshold;
  consecutive_healthy_checks = 0;
  metadata = o.metadata;
}

abbrev pub seen_healthy : ActiveCondition → HealthObservation → ActiveCondition
seen_healthy c o = record {
  condition = c.condition;
  scope = c.scope;
  severity = c.severity;
  first_detected_at = c.first_detected_at;
  last_observed_at = o.observed_at;
  measured_value = o.measured_value;
  threshold = o.threshold;
  consecutive_healthy_checks = c.consecutive_healthy_checks + 1;
  metadata = c.metadata;
}

abbrev pub key_of : HealthObservation → Key
key_of o = make_key o.condition o.scope

-- The branches of `record_observation`: on the observation's health, and on what the key holds.
record_at : Bool → Option ActiveCondition → HealthObservation → Registry → Registry × Recorded
record_at false none o r = (
  record r { active = insert Key-discrete (key_of o) (new_condition o) r.active },
  record { changed = true; detected = some (new_condition o); resolved = none },
)
record_at false (some c) o r =
    (record r { active = insert Key-discrete (key_of o) (seen_again c o) r.active }, unchanged)
record_at true (some c) o r =
    if can_resolve r.config (seen_healthy c o) o.observed_at
    then (
      record r { active = erase Key-discrete (key_of o) r.active },
      record { changed = true; detected = none; resolved = some (seen_healthy c o) },
    )
    else (
      record r { active = insert Key-discrete (key_of o) (seen_healthy c o) r.active },
      unchanged,
    )
record_at true none o r = (r, unchanged)

-- `ConditionRegistry.record_observation`
unfoldable pub record_observation : HealthObservation → Registry → Registry × Recorded
unfolding record_at
record_observation o r = record_at o.healthy (lookup Key-discrete (key_of o) r.active) o r

-- `ConditionRegistry.resolve_manually`
unfoldable pub resolve_manually :
    TradingHealthCondition → HealthScope → Registry → Registry × Option ActiveCondition
resolve_manually condition scope r =
    let key = make_key condition scope in
    (record r { active = erase Key-discrete key r.active }, lookup Key-discrete key r.active)

-- `ConditionRegistry.get_active_conditions`
abbrev pub get_active_conditions : Registry → List ActiveCondition
get_active_conditions r = values r.active

-- `ConditionRegistry.clear`
abbrev pub clear : Registry → Registry
clear r = record r { active = [] }
