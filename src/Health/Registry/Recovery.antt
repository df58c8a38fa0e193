-- ===== src/Health/Registry/Recovery.antt =====
-- src/trading/health/recovery_policy.py over a run of healthy observations of one condition.
use ml_crypto_trading.Prelude.{
  ◌+◌, ◌≡◌, refl, ◌∙◌, inl, inr, Bool-cases, true, false, Option, none, some, List, [], ◌∷◌, All,
  length, arith, leb, ltb, is_some, if◌then◌else◌, ◌⊎◌,
}
use ml_crypto_trading.Prelude.Dict.{lookup}
use ml_crypto_trading.Health.Models.{HealthObservation, ActiveCondition}
use ml_crypto_trading.Health.Registry.{
  RecoveryConfig, is_fatal, can_resolve, Key, Key-discrete, Registry, seen_healthy, key_of,
  record_observation,
}
use ml_crypto_trading.Health.Registry.Laws.{
  next, lookup-record_observation_self, config-record_observation,
}

-- The registry after a run of observations.
pub observe_all : List HealthObservation → Registry → Registry
observe_all [] r = r
observe_all (o ∷ os) r = observe_all os (record_observation o r).0

abbrev pub IsHealthyAt : Key → HealthObservation → Type 0
IsHealthyAt k o = (key_of o ≡ k) × (o.healthy ≡ true)

-- A healthy observation resolves exactly when the checks suffice, recovery is automatic and the
-- condition is not fatal; the time of the observation plays no part.
can_resolve_now :
    (config : RecoveryConfig) (c : ActiveCondition) (o : HealthObservation)
    → config.automatic ≡ true
    → is_fatal c.severity ≡ false
    → can_resolve config (seen_healthy c o) o.observed_at
      ≡ leb config.required_successful_checks (c.consecutive_healthy_checks + 1)
unfolding can_resolve
can_resolve_now config c o a s = ground arith

-- The life of a single condition over a run of observations.
next_all : RecoveryConfig → List HealthObservation → Option ActiveCondition → Option ActiveCondition
next_all config [] c = c
next_all config (o ∷ os) c = next_all config os (next config o c)

lookup-observe_all :
    (k : Key) (os : List HealthObservation) (r : Registry)
    → All (IsHealthyAt k) os
    → lookup Key-discrete k (observe_all os r).active
      ≡ next_all r.config os (lookup Key-discrete k r.active)
unfolding observe_all next_all
lookup-observe_all k [] r h = refl
lookup-observe_all k (o ∷ os) r h =
    lookup-observe_all k os (record_observation o r).0 h.1
    ∙ rw (config-record_observation, ← h.0.0, lookup-record_observation_self) refl

next_all-none :
    (k : Key) (config : RecoveryConfig) (os : List HealthObservation)
    → All (IsHealthyAt k) os
    → next_all config os none ≡ none
unfolding next_all
next_all-none k config [] h = refl
next_all-none k config (o ∷ os) h = ground (arith, next_all-none k config os h.1)

next_healthy :
    (config : RecoveryConfig) (c : ActiveCondition) (o : HealthObservation)
    → config.automatic ≡ true
    → is_fatal c.severity ≡ false
    → o.healthy ≡ true
    → next config o (some c) ≡ (
        if leb config.required_successful_checks (c.consecutive_healthy_checks + 1)
        then none
        else some (seen_healthy c o))
next_healthy config c o a s h = rw h (rw (can_resolve_now config c o a s))

next_fatal :
    (config : RecoveryConfig) (c : ActiveCondition) (o : HealthObservation)
    → (is_fatal c.severity ≡ true) ⊎ (config.automatic ≡ false)
    → o.healthy ≡ true
    → next config o (some c) ≡ some (seen_healthy c o)
unfolding can_resolve
next_fatal config c o f h = rw h (ground arith)

next_all-fatal :
    (k : Key) (config : RecoveryConfig) (os : List HealthObservation) (c : ActiveCondition)
    → (is_fatal c.severity ≡ true) ⊎ (config.automatic ≡ false)
    → All (IsHealthyAt k) os
    → is_some (next_all config os (some c)) ≡ true
unfolding next_all
next_all-fatal k config [] c f h = refl
next_all-fatal k config (o ∷ os) c f h =
    rw (next_fatal config c o f h.0.1) (next_all-fatal k config os (seen_healthy c o) f h.1)

module _ (k : Key) (config : RecoveryConfig) (a : config.automatic ≡ true) where
  next_all_lem :
      (o : HealthObservation) (os : List HealthObservation) (c : ActiveCondition)
      → is_fatal c.severity ≡ false
      → All (IsHealthyAt k) (o ∷ os)
      → is_some (next_all config (o ∷ os) (some c))
        ≡ ltb (c.consecutive_healthy_checks + length (o ∷ os)) config.required_successful_checks
  unfolding next_all
  next_all_lem o [] c s h = ground (arith, can_resolve_now config c o a s)
  next_all_lem o (o' ∷ os) c s h =
      elim (Bool-cases (leb config.required_successful_checks (c.consecutive_healthy_checks + 1))) [
        | inl done ↦
            rw (next_healthy config c o a s h.0.1, done, next_all-none k config (o' ∷ os) h.1)
              (ground arith)
        | inr more ↦
            rw (next_healthy config c o a s h.0.1, more)
              (next_all_lem o' os (seen_healthy c o) s h.1 ∙ ground arith)
      ]

-- While recovery is automatic and the condition is not fatal, a run of healthy observations of an
-- active condition leaves it active exactly as long as its count of healthy checks, the run
-- included, is below the number required. The period of stability that the configuration asks for
-- plays no part, nor do the times of the observations.
pub observe_all_recovers :
    (k : Key) (r : Registry) (o : HealthObservation) (os : List HealthObservation)
    (c : ActiveCondition)
    → lookup Key-discrete k r.active ≡ some c
    → r.config.automatic ≡ true
    → is_fatal c.severity ≡ false
    → All (IsHealthyAt k) (o ∷ os)
    → is_some (lookup Key-discrete k (observe_all (o ∷ os) r).active)
      ≡ ltb (c.consecutive_healthy_checks + length (o ∷ os)) r.config.required_successful_checks
observe_all_recovers k r o os c e a s h =
    rw (lookup-observe_all k (o ∷ os) r h, e) (next_all_lem k r.config a o os c s h)

-- A condition that is fatal, or whose recovery is not automatic, survives every run of healthy
-- observations.
pub observe_all_keeps_fatal :
    (k : Key) (r : Registry) (os : List HealthObservation) (c : ActiveCondition)
    → lookup Key-discrete k r.active ≡ some c
    → (is_fatal c.severity ≡ true) ⊎ (r.config.automatic ≡ false)
    → All (IsHealthyAt k) os
    → is_some (lookup Key-discrete k (observe_all os r).active) ≡ true
observe_all_keeps_fatal k r os c e f h =
    rw (lookup-observe_all k os r h, e) (next_all-fatal k r.config os c f h)
