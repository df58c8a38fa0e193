-- ===== src/Retention/Resolver/Updates.antt =====
-- src/retention/policy_resolver.py: what `update` changes.
use mathlib.Core.Option.{some-injective}
use mathlib.Core.Path.{subst}
use ml_crypto_trading.Prelude.{
  String, Option, none, some, true, is_some, or_else, Option-cases, inl, inr, ◌≡◌, ◌≢◌, refl, ap,
}
use ml_crypto_trading.Prelude.Int.{ℤ}
use ml_crypto_trading.Prelude.Text.{String-discrete}
use ml_crypto_trading.Prelude.Dict.{Dict, lookup}
use ml_crypto_trading.Retention.Durations.{Codes}
use ml_crypto_trading.Retention.Policy.{DataCategory, RetentionMode, RetentionPolicy, parse_text}
use ml_crypto_trading.Retention.Building.{
  PolicySettings, RetentionConfig, Override, mode_of, mode_or, new_policy, built, build_policy,
  resolve_category,
}
use ml_crypto_trading.Retention.Resolver.{
  Change, over, merge, changes_of, period_accepted, mode_accepted,
}

-- The policy after a change of one: the period, the mode and the switch are those of the change where it
-- has one; the rest is as it was, but for the note on the update.
pub record IsChanged (c : Change) (old new : RetentionPolicy) : Type 0 where
  pub period : new.retention_period ≡ or_else c.retention_period old.retention_period
  pub mode : mode_or c.retention_mode old.retention_mode ≡ some new.retention_mode
  pub switch : new.enabled ≡ or_else c.enabled old.enabled
  pub name : new.policy_id ≡ old.policy_id
  pub category : new.data_category ≡ old.data_category
  pub scope : new.scope ≡ old.scope
  pub description : new.description ≡ old.description
  pub grace : new.grace_period ≡ old.grace_period
  pub time : new.updated_at ≡ some c.now
  pub actor : new.updated_by ≡ c.actor

built_inv :
    (category : Option DataCategory) (mode : Option RetentionMode)
    (period grace : Option (Option ℤ)) (p : DataCategory → RetentionMode → RetentionPolicy)
    (q : RetentionPolicy)
    → built category mode period grace p ≡ some q
    → (k : DataCategory) × (m : RetentionMode) × (is_some period ≡ true)
      × (is_some grace ≡ true)
      × (category ≡ some k)
      × (mode ≡ some m)
      × (p k m ≡ q)
built_inv (some k) (some m) (some d) (some g) p q e =
    (k, m, refl, refl, refl, refl, some-injective _ _ e)
built_inv none _ _ _ p q e = cc
built_inv (some k) none _ _ p q e = cc
built_inv (some k) (some m) none _ p q e = cc
built_inv (some k) (some m) (some d) none p q e = cc

built_lem :
    (k : DataCategory) (m : RetentionMode) (category : Option DataCategory)
    (mode : Option RetentionMode) (period grace : Option (Option ℤ))
    (p : DataCategory → RetentionMode → RetentionPolicy)
    → category ≡ some k
    → mode ≡ some m
    → is_some period ≡ true
    → is_some grace ≡ true
    → built category mode period grace p ≡ some (p k m)
built_lem k m category mode (some d) (some g) p e f h i = rw (e, f, built) refl
built_lem k m category mode none grace p e f h i = cc
built_lem k m category mode (some d) none p e f h i = cc

or_else-over {ℓ} :
    {A : Type ℓ} (new old : Option A) (a : A)
    → or_else (over new old) a ≡ or_else new (or_else old a)
or_else-over none old a = refl
or_else-over (some b) old a = refl

over_mode :
    (new old : Option String) (mode m : RetentionMode)
    → mode_or old mode ≡ some m
    → mode_accepted new ≡ true
    → (m' : RetentionMode) × (mode_or (over new old) mode ≡ some m') × (mode_or new m ≡ some m')
over_mode none old mode m e h = (m, e, refl)
over_mode (some raw) old mode m e h = elim (Option-cases (mode_of raw)) [
  | inl unknown ↦ absurd (cc (ap is_some unknown))
  | inr (m', known) ↦ (m', known, known)
]

over_period :
    (new old : Option Codes) (period : Codes)
    → is_some (parse_text (or_else old period)) ≡ true
    → period_accepted new ≡ true
    → is_some (parse_text (or_else (over new old) period)) ≡ true
over_period none old period e h = e
over_period (some p) old period e h = h

module _ (config : RetentionConfig) (policy_id : String) (c : Change)
    (period_ok : period_accepted c.retention_period ≡ true)
    (mode_ok : mode_accepted c.retention_mode ≡ true) where
  pub build_policy-IsChanged :
      (s : PolicySettings) (o : Override) (p : RetentionPolicy)
      → build_policy config policy_id s o ≡ some p
      → (p' : RetentionPolicy) × (build_policy config policy_id s (merge (changes_of c) o)
          ≡ some p')
        × IsChanged c p p'
  unfolding build_policy
  build_policy-IsChanged s o p e =
      let (k, m, period, grace, category, mode, named) =
        built_inv (resolve_category policy_id s.data_category)
          (mode_or o.retention_mode s.retention_mode) _ _ _ p e in
      let (m', mode', changed) =
        over_mode c.retention_mode o.retention_mode s.retention_mode m mode mode_ok in
      (
        new_policy config policy_id s (merge (changes_of c) o) k m',
        built_lem k m' _ _ _ _ _ category mode'
            (over_period c.retention_period o.retention_period s.retention_period period period_ok)
            grace,
        subst (λ q. IsChanged c q (new_policy config policy_id s (merge (changes_of c) o) k m'))
            named
            (record {
              period = or_else-over c.retention_period o.retention_period s.retention_period;
              mode = changed;
              switch = or_else-over c.enabled o.enabled s.enabled;
              name = refl;
              category = refl;
              scope = refl;
              description = refl;
              grace = refl;
              time = refl;
              actor = refl;
            }),
      )

-- The policies after a change of one of them.
pub record AreChanged (policy_id : String) (c : Change) (old new : Dict String RetentionPolicy)
    : Type 0 where
  pub others :
      (j : String) → policy_id ≢ j → lookup String-discrete j new ≡ lookup String-discrete j old
  pub this :
      (p : RetentionPolicy)
      → lookup String-discrete policy_id old ≡ some p
      → (p' : RetentionPolicy) × (lookup String-discrete policy_id new ≡ some p') × IsChanged c p p'
