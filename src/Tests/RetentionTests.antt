-- ===== src/Tests/RetentionTests.antt =====
-- The theorems about src/retention at concrete inputs.
use ml_crypto_trading.Prelude.{ℕ, ◌+◌, ◌<◌, String, none, some, [], ◌∷◌, true, ◌≡◌, refl, arith}
use ml_crypto_trading.Prelude.Text.{String-discrete, decide_by}
use ml_crypto_trading.Prelude.Int.{ℤ, pos, negsuc, pos_part, neg_part}
use ml_crypto_trading.Prelude.Dict.{Dict}
use ml_crypto_trading.Retention.Durations.{Codes, text, parse, format}
use ml_crypto_trading.Retention.Durations.RoundTrip.{read_back, parse-format}
use ml_crypto_trading.Retention.Policy.{
  RetentionPolicy, requires_confirmation, cutoff, delete, metrics,
}
use ml_crypto_trading.Retention.Policy.Confirmed.{NotLater, requires_confirmation-cutoff}
use ml_crypto_trading.Retention.Building.{PolicySettings, build_policy, build_all, resolve_category}
use ml_crypto_trading.Retention.Resolver.{RetentionPolicyResolver, Change, update, updated}
use ml_crypto_trading.Retention.Resolver.Updates.{IsChanged, AreChanged}
use ml_crypto_trading.Retention.Resolver.Frame.{IsBuilt, update-AreChanged}

-- Ninety days and some fraction of a second.
abbrev ninety_days : ℤ
ninety_days = pos 7_776_000_000_005

is_exact : (t : ℤ) → some ninety_days ≡ some t → pos_part t + neg_part t < 8_589_934_592_000_000
is_exact (pos n) e = ground arith
is_exact (negsuc n) e = cc

parse-format_example : parse (text (format (some ninety_days))) ≡ read_back (some ninety_days)
parse-format_example = parse-format (some ninety_days) is_exact

abbrev days : ℕ → Codes
days digit = digit ∷ b'0' ∷ b'd' ∷ []

abbrev policy : ℕ → RetentionPolicy
policy digit = record {
  policy_id = "metrics";
  data_category = metrics;
  retention_period = days digit;
  retention_mode = delete;
  scope = "GLOBAL";
  enabled = true;
  grace_period = b'7' ∷ b'd' ∷ [];
  description = "";
  updated_at = none;
  updated_by = none;
}

requires_confirmation-cutoff_example :
    ((policy b'3').retention_mode ≡ (policy b'9').retention_mode)
    × ((policy b'3').enabled ≡ true)
    × NotLater
        (cutoff (policy b'9') (pos 100_000_000_000_000))
        (cutoff (policy b'3') (pos 100_000_000_000_000))
unfolding requires_confirmation parse
requires_confirmation-cutoff_example =
    requires_confirmation-cutoff (policy b'3') (policy b'9') (pos 100_000_000_000_000) refl refl
      refl

abbrev settings : PolicySettings
settings = record {
  data_category = some metrics;
  retention_period = days b'3';
  retention_mode = delete;
  scope = "GLOBAL";
  enabled = true;
  grace_period = none;
  description = "";
}

abbrev resolver : RetentionPolicyResolver
resolver = record {
  config = record {
    enabled = true;
    grace_period = b'7' ∷ b'd' ∷ [];
    policies = ("metrics", settings) ∷ [];
  };
  overrides = [];
  policies = ("metrics", policy b'3') ∷ [];
  version = "first";
}

abbrev longer : Change
longer = record {
  retention_period = some (days b'9');
  retention_mode = some "ARCHIVE";
  enabled = none;
  actor = some "operator";
  now = 12;
}

resolver-IsBuilt : IsBuilt resolver
unfolding build_all build_policy resolve_category parse String-discrete decide_by
resolver-IsBuilt = refl

abbrev second : Dict String RetentionPolicy → String
second policies = "second"

update-AreChanged_example :
    (r : RetentionPolicyResolver) × (p : RetentionPolicy) × (update second "metrics" longer resolver
      ≡ (r, updated (policy b'3') p))
    × IsBuilt r
    × IsChanged longer (policy b'3') p
    × AreChanged "metrics" longer resolver.policies r.policies
unfolding parse String-discrete decide_by
update-AreChanged_example =
    update-AreChanged second "metrics" longer resolver (policy b'3') resolver-IsBuilt refl refl refl
      refl
