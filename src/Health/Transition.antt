-- ===== src/Health/Transition.antt =====
-- src/trading/health/transition_policy.py: which state follows, from the active conditions or on
-- request.
pub mod Safety
use ml_crypto_trading.Prelude.{
  Bool, true, false, not, ◌&&◌, Option, none, some, List, [], ◌∷◌, any, if◌then◌else◌,
}
use ml_crypto_trading.Health.Models.{
  TradingHealthState, starting, syncing, ready, trading, degraded, paused, recovering, stopping,
  stopped, ScopeType, ActiveCondition, is_critical_or_higher,
}

abbrev is_global : ScopeType → Bool
is_global ScopeType.global = true
is_global _ = false

abbrev pub is_critical : ActiveCondition → Bool
is_critical c = is_critical_or_higher c.severity

abbrev pub is_critical_global : ActiveCondition → Bool
is_critical_global c = is_critical_or_higher c.severity && is_global c.scope.scope_type

-- `len(active_conditions) > 0`
abbrev pub is_nonempty : List ActiveCondition → Bool
is_nonempty [] = false
is_nonempty (c ∷ cs) = true

-- The ladder over the current state, from the three facts that it reads of the conditions:
-- `has_critical_global`, `has_any_critical` and `has_conditions`.
abbrev advance : TradingHealthState → Bool → Bool → Bool → TradingHealthState
advance trading crit_global crit conds =
    if crit_global then paused else if conds then degraded else trading
advance degraded crit_global crit conds =
    if crit_global then paused else if not conds then trading else degraded
advance paused crit_global crit conds = if not crit_global && not crit then recovering else paused
advance recovering crit_global crit conds =
    if crit_global
    then paused
    else if not conds
    then trading
    else if not crit
    then degraded
    else recovering
advance ready crit_global crit conds =
    if crit_global then paused else if conds then degraded else ready
advance syncing crit_global crit conds = if crit_global then paused else syncing
advance s crit_global crit conds = s

-- `_validate_manual_transition`
validate_manual_transition :
    TradingHealthState → TradingHealthState → List ActiveCondition → TradingHealthState
validate_manual_transition current paused cs = paused
validate_manual_transition current stopping cs = stopping
validate_manual_transition current stopped cs = stopped
validate_manual_transition starting syncing cs = syncing
validate_manual_transition current syncing cs = current
validate_manual_transition starting ready cs = ready
validate_manual_transition syncing ready cs = ready
validate_manual_transition current ready cs = current
validate_manual_transition current trading cs =
    if any is_critical cs then paused else if is_nonempty cs then degraded else trading
validate_manual_transition current recovering cs = recovering
validate_manual_transition current requested cs = current

-- `TradingTransitionPolicy.evaluate`
unfoldable pub evaluate :
    TradingHealthState → List ActiveCondition → Option TradingHealthState → TradingHealthState
unfolding validate_manual_transition
evaluate current cs none =
    advance current (any is_critical_global cs) (any is_critical cs) (is_nonempty cs)
evaluate current cs (some requested) = validate_manual_transition current requested cs
