-- ===== src/Health/Registry/Laws.antt =====
-- src/trading/health/condition_registry.py: what one observation does to the registry.
use ml_crypto_trading.Prelude.{
  ◌≡◌, refl, sym, ◌∙◌, inl, inr, Bool-cases, Bool, true, false, Option, none, some, is_some, ite,
  arith, not, ◌&&◌, if◌then◌else◌,
}
use mathlib.Core.Logic.{if_pos}
use ml_crypto_trading.Prelude.Dict.{
  lookup, IsValid, lookup-insert, lookup-erase, insert-IsValid, erase-IsValid, lookup-IsValid,
}
use ml_crypto_trading.Health.Models.{HealthObservation, ActiveCondition}
use ml_crypto_trading.Health.Registry.{
  RecoveryConfig, can_resolve, Key, Key-discrete, make_key, Registry, new_condition, seen_again,
  seen_healthy, key_of, record_at, record_observation,
}

-- The life of a single condition: what its key holds after an observation.
abbrev pub next_at :
    RecoveryConfig → HealthObservation → Bool → Option ActiveCondition → Option ActiveCondition
next_at config o false none = some (new_condition o)
next_at config o false (some c) = some (seen_again c o)
next_at config o true none = none
next_at config o true (some c) =
    if can_resolve config (seen_healthy c o) o.observed_at then none else some (seen_healthy c o)

abbrev pub next :
    RecoveryConfig → HealthObservation → Option ActiveCondition → Option ActiveCondition
next config o = next_at config o o.healthy

abbrev pub differ : Bool → Bool → Bool
differ true b = not b
differ false b = b

module _ (o : HealthObservation) (r : Registry) where
  record_at_lem :
      (healthy : Bool) (existing : Option ActiveCondition) (j : Key)
      → existing ≡ lookup Key-discrete (key_of o) r.active
      → lookup Key-discrete j (record_at healthy existing o r).0.active
        ≡ ite
            (Key-discrete (key_of o) j)
            (next_at r.config o healthy existing)
            (lookup Key-discrete j r.active)
  unfolding record_at
  record_at_lem false none j h = lookup-insert Key-discrete (key_of o) j (new_condition o) r.active
  record_at_lem false (some c) j h =
      lookup-insert Key-discrete (key_of o) j (seen_again c o) r.active
  record_at_lem true none j h = ground arith
  record_at_lem true (some c) j h = ground (
    arith,
    lookup-insert Key-discrete (key_of o) j (seen_healthy c o) r.active,
    lookup-erase Key-discrete (key_of o) j r.active,
  )

  config-record_at :
      (healthy : Bool) (existing : Option ActiveCondition)
      → (record_at healthy existing o r).0.config ≡ r.config
  unfolding record_at
  config-record_at false none = refl
  config-record_at false (some c) = refl
  config-record_at true none = refl
  config-record_at true (some c) = ground arith

  -- An observation moves the condition of its own key as `next` says, and no other.
  lookup-record_observation :
      (j : Key)
      → lookup Key-discrete j (record_observation o r).0.active
        ≡ ite
            (Key-discrete (key_of o) j)
            (next r.config o (lookup Key-discrete (key_of o) r.active))
            (lookup Key-discrete j r.active)
  unfolding record_observation
  lookup-record_observation j =
      record_at_lem o.healthy (lookup Key-discrete (key_of o) r.active) j refl

  pub lookup-record_observation_self :
      lookup Key-discrete (key_of o) (record_observation o r).0.active
      ≡ next r.config o (lookup Key-discrete (key_of o) r.active)
  lookup-record_observation_self =
      lookup-record_observation (key_of o) ∙ if_pos (Key-discrete (key_of o) (key_of o)) refl _ _

  report_at_lem :
      (healthy : Bool) (existing : Option ActiveCondition)
      → let after = next_at r.config o healthy existing in
        let report = (record_at healthy existing o r).1 in
        (report.detected ≡ (if is_some existing then none else after))
        × (is_some report.resolved ≡ (is_some existing && not (is_some after)))
        × (report.changed ≡ differ (is_some existing) (is_some after))
  unfolding record_at
  report_at_lem false none = ground arith
  report_at_lem false (some c) = ground arith
  report_at_lem true none = ground arith
  report_at_lem true (some c) = ground arith

  pub config-record_observation : (record_observation o r).0.config ≡ r.config
  unfolding record_observation
  config-record_observation = config-record_at o.healthy (lookup Key-discrete (key_of o) r.active)

  -- The report says what became of the key: a condition is detected if the key held none and now
  -- holds it, resolved if it held one and now holds none; in both cases, and only then, the set of
  -- conditions is reported as changed.
  record_observation_reports :
      let before = lookup Key-discrete (key_of o) r.active in
      let after = lookup Key-discrete (key_of o) (record_observation o r).0.active in
      let report = (record_observation o r).1 in
      (report.detected ≡ (if is_some before then none else after))
      × (is_some report.resolved ≡ (is_some before && not (is_some after)))
      × (report.changed ≡ differ (is_some before) (is_some after))
  record_observation_reports = rw lookup-record_observation_self (
      unfold record_observation in
      report_at_lem o.healthy (lookup Key-discrete (key_of o) r.active))

-- Every condition is listed under its own condition and scope, and under one key only.
abbrev pub IsKeyed : Registry → Type 0
IsKeyed r = IsValid Key-discrete (λ k c. k ≡ make_key c.condition c.scope) r.active

record_at-IsKeyed :
    (o : HealthObservation) (r : Registry) (healthy : Bool) (existing : Option ActiveCondition)
    → existing ≡ lookup Key-discrete (key_of o) r.active
    → IsKeyed r
    → IsKeyed (record_at healthy existing o r).0
unfolding record_at
record_at-IsKeyed o r false none e h =
    insert-IsValid Key-discrete _ (key_of o) (new_condition o) r.active refl h
record_at-IsKeyed o r false (some c) e h =
    insert-IsValid Key-discrete _ (key_of o) (seen_again c o) r.active
      (lookup-IsValid Key-discrete _ (key_of o) r.active h (sym e)) h
record_at-IsKeyed o r true none e h = h
record_at-IsKeyed o r true (some c) e h =
    elim (Bool-cases (can_resolve r.config (seen_healthy c o) o.observed_at)) [
      | inl done ↦ rw done (erase-IsValid Key-discrete _ (key_of o) r.active h)
      | inr more ↦ rw more (
          insert-IsValid Key-discrete _ (key_of o) (seen_healthy c o) r.active
            (lookup-IsValid Key-discrete _ (key_of o) r.active h (sym e)) h)
    ]

-- Recording an observation keeps the registry keyed.
pub record_observation-IsKeyed :
    (o : HealthObservation) (r : Registry) → IsKeyed r → IsKeyed (record_observation o r).0
unfolding record_observation
record_observation-IsKeyed o r h = record_at-IsKeyed o r o.healthy _ refl h
