-- ===== src/Retention/Building.antt =====
-- src/retention/policy_resolver.py, how `RetentionPolicyResolver` builds its policies of the settings of
-- src/configuration/retention_config.py. A mode that comes as a text is one of the modes or unknown.
use ml_crypto_trading.Prelude.{
  ℕ, String, Option, none, some, [], ◌∷◌, Bool, true, false, or_else, ite, if◌then◌else◌,
}
use ml_crypto_trading.Prelude.Int.{ℤ}
use ml_crypto_trading.Prelude.Text.{String-discrete, same_upper}
use ml_crypto_trading.Prelude.Dict.{Dict, lookup}
use ml_crypto_trading.Retention.Durations.{Codes}
use ml_crypto_trading.Retention.Policy.{
  DataCategory, RetentionMode, RetentionPolicy, parse_text, financial, trading_decision, trace,
  metrics, runtime_alert, experiment, experiment_artifact, report, config_history, market_data,
  market_data_buffer, application_log, cache, delete, archive, aggregate_then_delete, keep,
}

pub record PolicySettings : Type 0 where
  pub data_category : Option DataCategory
  pub retention_period : Codes
  pub retention_mode : RetentionMode
  pub scope : String
  pub enabled : Bool
  pub grace_period : Option Codes
  pub description : String

pub record RetentionConfig : Type 0 where
  pub enabled : Bool
  pub grace_period : Codes
  pub policies : Dict String PolicySettings

-- The entries of an override; a mode is a text.
pub record Override : Type 0 where
  pub retention_period : Option Codes
  pub retention_mode : Option String
  pub enabled : Option Bool
  pub updated_at : Option (Option ℕ)
  pub updated_by : Option (Option String)

abbrev pub no_override : Override
no_override = record {
  retention_period = none;
  retention_mode = none;
  enabled = none;
  updated_at = none;
  updated_by = none;
}

abbrev pub is_text : String → String → Bool
is_text a b = ite (String-discrete a b) true false

-- `RetentionMode(raw)`
abbrev pub mode_of : String → Option RetentionMode
mode_of raw =
    if is_text raw "DELETE"
    then some delete
    else if is_text raw "ARCHIVE"
    then some archive
    else if is_text raw "AGGREGATE_THEN_DELETE"
    then some aggregate_then_delete
    else if is_text raw "KEEP"
    then some keep
    else none

-- `_CATEGORY_BY_KEY`
abbrev pub category_by_key : Dict String DataCategory
category_by_key =
    ("financial_records", financial)
    ∷ ("orders", financial)
    ∷ ("trades", financial)
    ∷ ("trading_decisions", trading_decision)
    ∷ ("trace_events", trace)
    ∷ ("timeline", trace)
    ∷ ("metric_samples", metrics)
    ∷ ("metrics", metrics)
    ∷ ("runtime_incidents", runtime_alert)
    ∷ ("drift_alerts", runtime_alert)
    ∷ ("experiment_metadata", experiment)
    ∷ ("experiments", experiment)
    ∷ ("experiment_artifacts", experiment_artifact)
    ∷ ("backtest_reports", report)
    ∷ ("reports", report)
    ∷ ("market_datasets", market_data)
    ∷ ("market_data", market_data)
    ∷ ("market_data_buffer", market_data_buffer)
    ∷ ("application_logs", application_log)
    ∷ ("config_history", config_history)
    ∷ ("cache_buffers", cache)
    ∷ []

-- `DataCategory.__members__`
abbrev pub members : Dict String DataCategory
members =
    ("FINANCIAL", financial)
    ∷ ("TRADING_DECISION", trading_decision)
    ∷ ("TRACE", trace)
    ∷ ("METRICS", metrics)
    ∷ ("RUNTIME_ALERT", runtime_alert)
    ∷ ("EXPERIMENT", experiment)
    ∷ ("EXPERIMENT_ARTIFACT", experiment_artifact)
    ∷ ("REPORT", report)
    ∷ ("CONFIG_HISTORY", config_history)
    ∷ ("MARKET_DATA", market_data)
    ∷ ("MARKET_DATA_BUFFER", market_data_buffer)
    ∷ ("APPLICATION_LOG", application_log)
    ∷ ("CACHE", cache)
    ∷ []

-- `policy_id.upper()` among the members
abbrev pub find_member : String → Dict String DataCategory → Option DataCategory
find_member policy_id [] = none
find_member policy_id ((name, category) ∷ rest) =
    let found = find_member policy_id rest in
    if same_upper policy_id name then some category else found

abbrev pub or_key : String → Option DataCategory → Option DataCategory
or_key policy_id (some category) = some category
or_key policy_id none = lookup String-discrete policy_id category_by_key

-- `_resolve_category`
unfoldable pub resolve_category : String → Option DataCategory → Option DataCategory
resolve_category policy_id (some category) = some category
resolve_category policy_id none = or_key policy_id (find_member policy_id members)

-- `merged.get("grace_period") or self._config.grace_period`
abbrev pub grace_or : Option Codes → Codes → Codes
grace_or none default = default
grace_or (some []) default = default
grace_or (some s) default = s

abbrev pub mode_or : Option String → RetentionMode → Option RetentionMode
mode_or none mode = some mode
mode_or (some raw) mode = mode_of raw

abbrev pub period_of : PolicySettings → Override → Codes
period_of s o = or_else o.retention_period s.retention_period

-- The policy that is built of settings with an override.
abbrev pub new_policy :
    RetentionConfig
    → String
    → PolicySettings
    → Override
    → DataCategory
    → RetentionMode
    → RetentionPolicy
new_policy config policy_id s o category mode = record {
  policy_id = policy_id;
  data_category = category;
  retention_period = period_of s o;
  retention_mode = mode;
  scope = s.scope;
  enabled = or_else o.enabled s.enabled;
  grace_period = grace_or s.grace_period config.grace_period;
  description = s.description;
  updated_at = or_else o.updated_at none;
  updated_by = or_else o.updated_by none;
}

abbrev pub built :
    Option DataCategory
    → Option RetentionMode
    → Option (Option ℤ)
    → Option (Option ℤ)
    → (DataCategory → RetentionMode → RetentionPolicy)
    → Option RetentionPolicy
built (some category) (some mode) (some period) (some grace) p = some (p category mode)
built _ _ _ _ p = none

-- `_build_policy` of settings with an override; `none` stands for a `ValueError`.
unfoldable pub build_policy :
    RetentionConfig → String → PolicySettings → Override → Option RetentionPolicy
unfolding resolve_category
build_policy config policy_id s o =
    built (resolve_category policy_id s.data_category) (mode_or o.retention_mode s.retention_mode)
      (parse_text (period_of s o)) (parse_text (grace_or s.grace_period config.grace_period))
      (new_policy config policy_id s o)

abbrev pub override_of : String → Dict String Override → Override
override_of policy_id overrides = or_else (lookup String-discrete policy_id overrides) no_override

abbrev pub both :
    String
    → Option RetentionPolicy
    → Option (Dict String RetentionPolicy)
    → Option (Dict String RetentionPolicy)
both policy_id (some p) (some rest) = some ((policy_id, p) ∷ rest)
both policy_id _ _ = none

-- The loop of `rebuild`, over the settings, whose keys are distinct.
unfoldable pub build_all :
    RetentionConfig
    → Dict String Override
    → Dict String PolicySettings
    → Option (Dict String RetentionPolicy)
unfolding build_policy
build_all config overrides [] = some []
build_all config overrides ((policy_id, s) ∷ rest) =
    both policy_id (build_policy config policy_id s (override_of policy_id overrides))
      (build_all config overrides rest)
