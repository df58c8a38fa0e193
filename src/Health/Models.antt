-- ===== src/Health/Models.antt =====
-- src/core/severity.py, src/trading/health/enums.py and src/trading/health/models.py.
-- A moment is a number of microseconds since the epoch. `measured_value`, `threshold` and the values
-- of `metadata` are of type `Any`; the code stores and compares them only. The entries of `metadata`
-- are listed in the order of their keys, so that equal dicts are equal lists.
use ml_crypto_trading.Prelude.{ℕ, Bool, true, false, Option, none, some, List, ℕ_discrete, holds}
use ml_crypto_trading.Prelude.Dict.{Dict}
use ml_crypto_trading.Prelude.Int.{ℤ}
use ml_crypto_trading.Prelude.Text.{String-discrete}
use Prim.Native.String.{String}

pub data Severity : Type 0 where
  debug info warning error critical fatal : Severity

abbrev pub is_critical_or_higher : Severity → Bool
is_critical_or_higher Severity.critical = true
is_critical_or_higher Severity.fatal = true
is_critical_or_higher _ = false

pub data TradingHealthState : Type 0 where
  starting syncing ready trading degraded paused recovering stopping stopped : TradingHealthState

pub data TradingHealthCondition : Type 0 where
  exchange_unavailable market_data_stale balance_mismatch order_reconciliation_failed
        database_unavailable risk_limit_breached config_invalid :
      TradingHealthCondition

pub data ScopeType : Type 0 where
  global exchange quote_portfolio asset : ScopeType

pub data TradingPermission : Type 0 where
  new_orders modify_orders cancel_orders reduce_positions close_positions : TradingPermission

pub record HealthScope : Type 0 where
  pub scope_type : ScopeType
  pub identifier : String

-- A value of type `Any`, as observers report them.
pub data Value : Type 0 where
  number : ℤ → Value
  text : String → Value
  flag : Bool → Value

abbrev pub Metadata : Type 0
Metadata = Dict String Value

pub record HealthObservation : Type 0 where
  pub source : String
  pub condition : TradingHealthCondition
  pub scope : HealthScope
  pub healthy : Bool
  pub observed_at : ℕ
  pub severity : Severity
  pub measured_value : Option Value
  pub threshold : Option Value
  pub metadata : Metadata

pub record ActiveCondition : Type 0 where
  pub condition : TradingHealthCondition
  pub scope : HealthScope
  pub severity : Severity
  pub first_detected_at : ℕ
  pub last_observed_at : ℕ
  pub measured_value : Option Value
  pub threshold : Option Value
  pub consecutive_healthy_checks : ℕ
  pub metadata : Metadata

unfoldable pub State-discrete : Discrete TradingHealthState
State-discrete = hlevel

unfoldable pub Condition-discrete : Discrete TradingHealthCondition
Condition-discrete = hlevel

unfoldable pub Scope-discrete : Discrete HealthScope
Scope-discrete = hlevel String-discrete

unfoldable pub ActiveCondition-discrete : Discrete ActiveCondition
ActiveCondition-discrete = hlevel (ℕ_discrete, String-discrete)

unfoldable pub Conditions-discrete : Discrete (List ActiveCondition)
Conditions-discrete = hlevel ActiveCondition-discrete

abbrev pub global_scope : HealthScope
global_scope = record { scope_type = ScopeType.global; identifier = "GLOBAL" }

abbrev pub exchange_scope : String → HealthScope
exchange_scope name = record { scope_type = ScopeType.exchange; identifier = name }

abbrev pub quote_portfolio_scope : String → HealthScope
quote_portfolio_scope key = record { scope_type = ScopeType.quote_portfolio; identifier = key }

abbrev pub asset_scope : String → HealthScope
asset_scope ticker = record { scope_type = ScopeType.asset; identifier = ticker }

abbrev same_text : String → String → Bool
same_text s t = holds (String-discrete s t)

-- The comparison with an optional name: without one there is no match.
abbrev names : String → Option String → Bool
names s none = false
names s (some t) = same_text s t

abbrev match_scope : ScopeType → String → ScopeType → String → Option String → Option String → Bool
match_scope ScopeType.global i t j exchange_name portfolio_key = true
match_scope ScopeType.exchange i ScopeType.exchange j exchange_name portfolio_key = same_text i j
match_scope ScopeType.exchange i t j exchange_name portfolio_key = names i exchange_name
match_scope ScopeType.quote_portfolio i ScopeType.quote_portfolio j exchange_name portfolio_key =
    same_text i j
match_scope ScopeType.quote_portfolio i t j exchange_name portfolio_key = names i portfolio_key
match_scope ScopeType.asset i ScopeType.asset j exchange_name portfolio_key = same_text i j
match_scope ScopeType.asset i t j exchange_name portfolio_key = false

-- `HealthScope.matches_target`
unfoldable pub matches_target : HealthScope → HealthScope → Option String → Option String → Bool
matches_target s target exchange_name portfolio_key =
    match_scope s.scope_type s.identifier target.scope_type target.identifier exchange_name
      portfolio_key
