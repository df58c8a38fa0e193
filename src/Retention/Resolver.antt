-- ===== src/Retention/Resolver.antt =====
-- src/retention/policy_resolver.py, `RetentionPolicyResolver`: its rebuilding and its updates. The digest
-- that is a version is an argument.
pub mod Updates
pub mod Frame
use ml_crypto_trading.Prelude.{
  ℕ, String, Option, none, some, [], ◌∷◌, Bool, true, false, not, ◌||◌, is_some, if◌then◌else◌,
}
use ml_crypto_trading.Prelude.Text.{String-discrete}
use ml_crypto_trading.Prelude.Dict.{Dict, lookup, insert}
use ml_crypto_trading.Retention.Durations.{Codes}
use ml_crypto_trading.Retention.Policy.{RetentionPolicy, parse_text}
use ml_crypto_trading.Retention.Building.{
  RetentionConfig, Override, mode_of, override_of, build_all,
}

pub record RetentionPolicyResolver : Type 0 where
  pub config : RetentionConfig
  pub overrides : Dict String Override
  pub policies : Dict String RetentionPolicy
  pub version : String

-- The resolver after a call, and what the call raised.
pub data Failure : Type 0 where
  key_error value_error : Failure

pub data UpdateOutcome : Type 0 where
  failed : Failure → UpdateOutcome
  updated : RetentionPolicy → RetentionPolicy → UpdateOutcome

-- The arguments of `update`.
pub record Change : Type 0 where
  pub retention_period : Option Codes
  pub retention_mode : Option String
  pub enabled : Option Bool
  pub actor : Option String
  pub now : ℕ

abbrev pub over {ℓ} : {A : Type ℓ} → Option A → Option A → Option A
over none old = old
over (some a) old = some a

-- What `apply_overrides` takes over of the data for a policy.
abbrev pub merge : Override → Override → Override
merge new entry = record {
  retention_period = over new.retention_period entry.retention_period;
  retention_mode = over new.retention_mode entry.retention_mode;
  enabled = over new.enabled entry.enabled;
  updated_at = over new.updated_at entry.updated_at;
  updated_by = over new.updated_by entry.updated_by;
}

abbrev pub merge_all : Dict String Override → Dict String Override → Dict String Override
merge_all [] overrides = overrides
merge_all ((policy_id, new) ∷ rest) overrides =
    merge_all rest
      (insert String-discrete policy_id (merge new (override_of policy_id overrides)) overrides)

-- `changes`, for an override
abbrev pub changes_of : Change → Override
changes_of c = record {
  retention_period = c.retention_period;
  retention_mode = c.retention_mode;
  enabled = c.enabled;
  updated_at = some (some c.now);
  updated_by = some c.actor;
}

abbrev pub is_empty_change : Change → Bool
is_empty_change c =
    not (is_some c.retention_period || is_some c.retention_mode || is_some c.enabled)

abbrev pub period_accepted : Option Codes → Bool
period_accepted none = true
period_accepted (some period) = is_some (parse_text period)

abbrev pub mode_accepted : Option String → Bool
mode_accepted none = true
mode_accepted (some raw) = is_some (mode_of raw)

abbrev pub report_policy : RetentionPolicy → Option RetentionPolicy → UpdateOutcome
report_policy old none = failed key_error
report_policy old (some new) = updated old new

abbrev pub after_rebuild :
    String
    → RetentionPolicy
    → RetentionPolicyResolver × Bool
    → RetentionPolicyResolver × UpdateOutcome
after_rebuild policy_id old (r, false) = (r, failed value_error)
after_rebuild policy_id old (r, true) =
    (r, report_policy old (lookup String-discrete policy_id r.policies))

abbrev pub with_override : String → Override → RetentionPolicyResolver → RetentionPolicyResolver
with_override policy_id new r = record r {
  overrides =
      insert String-discrete policy_id (merge new (override_of policy_id r.overrides)) r.overrides;
}

module _ (digest : Dict String RetentionPolicy → String) where
  abbrev pub rebuilt :
      Option (Dict String RetentionPolicy)
      → RetentionPolicyResolver
      → RetentionPolicyResolver × Bool
  rebuilt none r = (r, false)
  rebuilt (some policies) r = (record r { policies = policies; version = digest policies }, true)

  -- `rebuild`: the resolver, and whether the call returned.
  unfoldable pub rebuild : RetentionPolicyResolver → RetentionPolicyResolver × Bool
  unfolding build_all
  rebuild r = rebuilt (build_all r.config r.overrides r.config.policies) r

  -- `apply_overrides`
  unfoldable pub apply_overrides :
      Dict String Override → RetentionPolicyResolver → RetentionPolicyResolver × Bool
  unfolding rebuild
  apply_overrides news r = rebuild (record r { overrides = merge_all news r.overrides })

  abbrev pub update_found :
      String
      → Change
      → Option RetentionPolicy
      → RetentionPolicyResolver
      → RetentionPolicyResolver × UpdateOutcome
  update_found policy_id c none r = (r, failed key_error)
  update_found policy_id c (some old) r =
      if not (period_accepted c.retention_period)
      then (r, failed value_error)
      else if not (mode_accepted c.retention_mode)
      then (r, failed value_error)
      else if is_empty_change c
      then (r, updated old old)
      else after_rebuild policy_id old (rebuild (with_override policy_id (changes_of c) r))

  -- `update`
  unfoldable pub update :
      String → Change → RetentionPolicyResolver → RetentionPolicyResolver × UpdateOutcome
  unfolding rebuild
  update policy_id c r = update_found policy_id c (lookup String-discrete policy_id r.policies) r
