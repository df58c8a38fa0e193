-- ===== src/Health/Permission.antt =====
-- src/trading/health/permission_policy.py: which trading actions a state and its conditions permit.
-- A `frozenset[TradingPermission]` is a record of five Booleans.
pub mod Table
use ml_crypto_trading.Prelude.{
  Bool, true, false, ◌&&◌, Option, String, List, [], ◌∷◌, any, select, if◌then◌else◌, or_else,
}
use ml_crypto_trading.Health.Models.{
  TradingHealthState, starting, syncing, ready, trading, degraded, paused, recovering, stopping,
  stopped, TradingHealthCondition, exchange_unavailable, market_data_stale, balance_mismatch,
  order_reconciliation_failed, database_unavailable, risk_limit_breached, config_invalid,
  TradingPermission, new_orders, modify_orders, cancel_orders, reduce_positions, close_positions,
  HealthScope, ActiveCondition, matches_target, global_scope,
}

pub record PermissionSet : Type 0 where
  pub can_new : Bool
  pub can_modify : Bool
  pub can_cancel : Bool
  pub can_reduce : Bool
  pub can_close : Bool

unfoldable pub PermissionSet-discrete : Discrete PermissionSet
PermissionSet-discrete = hlevel

-- `p in permissions`
abbrev pub member : TradingPermission → PermissionSet → Bool
member new_orders s = s.can_new
member modify_orders s = s.can_modify
member cancel_orders s = s.can_cancel
member reduce_positions s = s.can_reduce
member close_positions s = s.can_close

-- `permissions.discard(p)`
abbrev pub discard : TradingPermission → PermissionSet → PermissionSet
discard new_orders s = record s { can_new = false }
discard modify_orders s = record s { can_modify = false }
discard cancel_orders s = record s { can_cancel = false }
discard reduce_positions s = record s { can_reduce = false }
discard close_positions s = record s { can_close = false }

abbrev pub no_permissions : PermissionSet
no_permissions = record {
  can_new = false;
  can_modify = false;
  can_cancel = false;
  can_reduce = false;
  can_close = false;
}

abbrev pub all_permissions : PermissionSet
all_permissions = record {
  can_new = true;
  can_modify = true;
  can_cancel = true;
  can_reduce = true;
  can_close = true;
}

abbrev pub safe_shutdown_permissions : PermissionSet
safe_shutdown_permissions = record {
  can_new = false;
  can_modify = false;
  can_cancel = true;
  can_reduce = true;
  can_close = true;
}

abbrev pub recovery_permissions : PermissionSet
recovery_permissions = record {
  can_new = false;
  can_modify = false;
  can_cancel = true;
  can_reduce = true;
  can_close = false;
}

abbrev is_exchange_unavailable : TradingHealthCondition → Bool
is_exchange_unavailable exchange_unavailable = true
is_exchange_unavailable _ = false

-- What one matching condition takes away; the code has no branch for `exchange_unavailable`.
abbrev restrict : TradingHealthCondition → PermissionSet → PermissionSet
restrict market_data_stale s =
    discard close_positions (discard modify_orders (discard new_orders s))
restrict balance_mismatch s = discard modify_orders (discard new_orders s)
restrict order_reconciliation_failed s = discard modify_orders (discard new_orders s)
restrict database_unavailable s = discard modify_orders (discard new_orders s)
restrict config_invalid s = discard modify_orders (discard new_orders s)
restrict risk_limit_breached s = discard modify_orders (discard new_orders s)
restrict exchange_unavailable s = s

-- The loop over the matching conditions.
unfoldable pub restrict_all : PermissionSet → List ActiveCondition → PermissionSet
restrict_all s [] = s
restrict_all s (c ∷ cs) = restrict_all (restrict c.condition s) cs

-- `if not matching_conditions: return ALL_PERMISSIONS`
abbrev live_permissions : Bool → List ActiveCondition → PermissionSet
live_permissions down [] = all_permissions
live_permissions down (c ∷ cs) =
    let restricted = restrict_all all_permissions (c ∷ cs) in
    if down then no_permissions else restricted

-- The ladder over the state.
abbrev permissions_in : TradingHealthState → Bool → List ActiveCondition → PermissionSet
permissions_in starting down matching = no_permissions
permissions_in syncing down matching = no_permissions
permissions_in ready down matching = no_permissions
permissions_in stopped down matching = no_permissions
permissions_in stopping down matching = if down then no_permissions else safe_shutdown_permissions
permissions_in paused down matching = if down then no_permissions else recovery_permissions
permissions_in recovering down matching = if down then no_permissions else recovery_permissions
permissions_in trading down matching = live_permissions down matching
permissions_in degraded down matching = live_permissions down matching

module _ (target_scope : Option HealthScope) (exchange_name portfolio_key : Option String) where
  abbrev pub applies : ActiveCondition → Bool
  applies c = matches_target c.scope (or_else target_scope global_scope) exchange_name portfolio_key

  abbrev pub is_exchange_down : ActiveCondition → Bool
  is_exchange_down c = is_exchange_unavailable c.condition && applies c

  -- `TradingPermissionPolicy.evaluate`
  unfoldable pub evaluate : TradingHealthState → List ActiveCondition → PermissionSet
  unfolding restrict_all
  evaluate s cs = permissions_in s (any is_exchange_down cs) (select applies cs)
