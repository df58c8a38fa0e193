-- ===== src/Retention/Policy.antt =====
-- src/retention/models.py, the categories, the modes and `RetentionPolicy`, and `requires_confirmation`
-- of src/retention/policy_resolver.py. Instants are microseconds; `none` in front of a result stands
-- for an exception.
pub mod Confirmed
use ml_crypto_trading.Prelude.{
  ℕ, String, Option, none, some, Bool, true, false, not, ◌&&◌, if◌then◌else◌,
}
use ml_crypto_trading.Prelude.Int.{ℤ, pos, ◌-ℤ◌, ltb_ℤ}
use ml_crypto_trading.Retention.Durations.{Codes, Parsed, parsed, refused, text, parse}

pub data DataCategory : Type 0 where
  financial trading_decision trace metrics runtime_alert : DataCategory
  experiment experiment_artifact report config_history market_data : DataCategory
  market_data_buffer application_log cache : DataCategory

pub data RetentionMode : Type 0 where
  delete archive aggregate_then_delete keep : RetentionMode

pub record RetentionPolicy : Type 0 where
  pub policy_id : String
  pub data_category : DataCategory
  pub retention_period : Codes
  pub retention_mode : RetentionMode
  pub scope : String
  pub enabled : Bool
  pub grace_period : Codes
  pub description : String
  pub updated_at : Option ℕ
  pub updated_by : Option String

-- `parse_duration` of a text
abbrev pub accepted : Parsed → Option (Option ℤ)
accepted (parsed duration) = some duration
accepted refused = none

abbrev pub parse_text : Codes → Option (Option ℤ)
parse_text s = accepted (parse (text s))

-- `parse_duration(self.grace_period) or timedelta(0)`
abbrev pub grace_of : Option (Option ℤ) → Option ℤ
grace_of none = none
grace_of (some none) = some (pos 0)
grace_of (some (some seconds)) = some seconds

abbrev pub grace_delta : RetentionPolicy → Option ℤ
grace_delta p = grace_of (parse_text p.grace_period)

abbrev pub before : ℤ → ℤ → Option ℤ → Option (Option ℤ)
before now period none = none
before now period (some grace) = some (some (now -ℤ period -ℤ grace))

abbrev pub cutoff_of : ℤ → Option (Option ℤ) → Option ℤ → Option (Option ℤ)
cutoff_of now none grace = none
cutoff_of now (some none) grace = some none
cutoff_of now (some (some period)) grace = before now period grace

-- `cutoff`: the instant before which records may go, or none if they are kept.
unfoldable pub cutoff : RetentionPolicy → ℤ → Option (Option ℤ)
cutoff p now = cutoff_of now (parse_text p.retention_period) (grace_delta p)

-- `DESTRUCTIVE_MODES`
abbrev pub is_destructive : RetentionMode → Bool
is_destructive delete = true
is_destructive aggregate_then_delete = true
is_destructive _ = false

abbrev pub same_mode : RetentionMode → RetentionMode → Bool
same_mode delete delete = true
same_mode archive archive = true
same_mode aggregate_then_delete aggregate_then_delete = true
same_mode keep keep = true
same_mode _ _ = false

-- `old_delta is not None and new_delta is not None and new_delta < old_delta`
abbrev pub is_shorter : Option (Option ℤ) → Option (Option ℤ) → Option Bool
is_shorter none new = none
is_shorter (some old) none = none
is_shorter (some none) (some new) = some false
is_shorter (some (some old)) (some none) = some false
is_shorter (some (some old)) (some (some new)) = some (ltb_ℤ new old)

-- `requires_confirmation`
unfoldable pub requires_confirmation : RetentionPolicy → RetentionPolicy → Option Bool
requires_confirmation old new =
    if is_destructive new.retention_mode && not (same_mode new.retention_mode old.retention_mode)
    then some true
    else if is_destructive new.retention_mode && not old.enabled && new.enabled
    then some true
    else is_shorter (parse_text old.retention_period) (parse_text new.retention_period)
