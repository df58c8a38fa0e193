-- ===== src/Retention/Resolver/Frame.antt =====
-- src/retention/policy_resolver.py: `update` on a resolver whose policies are those of its settings.
use mathlib.Core.Logic.{if_pos, if_neg}
use mathlib.Core.Option.{some-injective}
use mathlib.Core.Path.{subst}
use ml_crypto_trading.Prelude.{
  String, Option, none, some, [], ◌∷◌, true, false, or_else, ite, not, if_else, ◌≡◌, ◌≢◌, refl, sym,
  ap, ◌∙◌,
}
use ml_crypto_trading.Prelude.Text.{String-discrete}
use ml_crypto_trading.Prelude.Dict.{Dict, lookup, insert, lookup-insert}
use ml_crypto_trading.Retention.Policy.{RetentionPolicy}
use ml_crypto_trading.Retention.Building.{
  PolicySettings, RetentionConfig, Override, no_override, override_of, both, build_all,
}
use ml_crypto_trading.Retention.Resolver.{
  RetentionPolicyResolver, Change, rebuild, rebuilt, merge, changes_of, is_empty_change,
  period_accepted, mode_accepted, after_rebuild, with_override, update_found, update, updated,
  report_policy,
}
use ml_crypto_trading.Retention.Resolver.Updates.{IsChanged, AreChanged, build_policy-IsChanged}

both_inv :
    (policy_id : String) (o : Option RetentionPolicy) (rest : Option (Dict String RetentionPolicy))
    (ps : Dict String RetentionPolicy)
    → both policy_id o rest ≡ some ps
    → (p : RetentionPolicy) × (qs : Dict String RetentionPolicy) × (o ≡ some p)
      × (rest ≡ some qs)
      × ((policy_id, p) ∷ qs ≡ ps)
both_inv policy_id (some p) (some qs) ps e = (p, qs, refl, refl, some-injective _ _ e)
both_inv policy_id none rest ps e = cc
both_inv policy_id (some p) none ps e = cc

module _ (policy_id id : String) (c : Change) (p : RetentionPolicy)
    (old new : Dict String RetentionPolicy) (h : AreChanged policy_id c old new) where
  cons_other : policy_id ≢ id → AreChanged policy_id c ((id, p) ∷ old) ((id, p) ∷ new)
  cons_other ne = record {
    others = λ j other. ap (λ rest. ite (String-discrete id j) (some p) rest) (h.others j other);
    this = λ q e.
        let differ : id ≢ policy_id = λ x. ne (sym x) in
        let skip = if_neg (String-discrete id policy_id) differ in
        let (q', found, changed) = h.this q (sym (skip _ _) ∙ e) in (q', skip _ _ ∙ found, changed);
  }

  cons_this :
      (p' : RetentionPolicy)
      → policy_id ≡ id
      → IsChanged c p p'
      → AreChanged policy_id c ((id, p) ∷ old) ((id, p') ∷ new)
  cons_this p' e changed = record {
    others = λ j other.
        let differ : id ≢ j = λ x. other (e ∙ x) in
        if_neg (String-discrete id j) differ _ _
        ∙ h.others j other
        ∙ sym (if_neg (String-discrete id j) differ _ _);
    this = λ q found.
        let here = if_pos (String-discrete id policy_id) (sym e) in
        (
          p',
          here _ _,
          subst (λ r. IsChanged c r p') (some-injective _ _ (sym (here _ _) ∙ found)) changed,
        );
  }

module _ (config : RetentionConfig) (policy_id : String) (c : Change)
    (period_ok : period_accepted c.retention_period ≡ true)
    (mode_ok : mode_accepted c.retention_mode ≡ true) (overrides : Dict String Override) where
  abbrev changed : Dict String Override
  changed =
      insert String-discrete policy_id (merge (changes_of c) (override_of policy_id overrides))
        overrides

  override_this :
      (id : String)
      → policy_id ≡ id
      → override_of id changed ≡ merge (changes_of c) (override_of id overrides)
  override_this id e =
      ap (λ o. or_else o no_override)
        (lookup-insert String-discrete policy_id id _ overrides
          ∙ if_pos (String-discrete policy_id id) e _ _)
      ∙ ap (λ k. merge (changes_of c) (override_of k overrides)) e

  override_other :
      (id : String) → policy_id ≢ id → override_of id changed ≡ override_of id overrides
  override_other id ne =
      ap (λ o. or_else o no_override)
        (lookup-insert String-discrete policy_id id _ overrides
          ∙ if_neg (String-discrete policy_id id) ne _ _)

  build_all-AreChanged :
      (settings : Dict String PolicySettings) (ps : Dict String RetentionPolicy)
      → build_all config overrides settings ≡ some ps
      → (ps' : Dict String RetentionPolicy) × (build_all config changed settings ≡ some ps')
        × AreChanged policy_id c ps ps'
  unfolding build_all
  build_all-AreChanged [] ps e = (
    [],
    refl,
    subst (λ qs. AreChanged policy_id c qs []) (some-injective _ _ e)
        (record { others = λ j other. refl; this = λ p found. cc }),
  )
  build_all-AreChanged ((id, s) ∷ settings) ps e =
      let (p, qs, built, rest, joined) = both_inv id _ _ ps e in
      let (qs', rest', h) = build_all-AreChanged settings qs rest in
      elim (String-discrete policy_id id) [
        | yes same ↦
            let (p', built', new) =
              build_policy-IsChanged config id c period_ok mode_ok s (override_of id overrides) p
                built in
            (
              (id, p') ∷ qs',
              rw (override_this id same, built', rest', both) refl,
              subst (λ r. AreChanged policy_id c r ((id, p') ∷ qs')) joined
                  (cons_this policy_id id c p qs qs' h p' same new),
            )
        | no other ↦ (
          (id, p) ∷ qs',
          rw (override_other id other, built, rest', both) refl,
          subst (λ r. AreChanged policy_id c r ((id, p) ∷ qs')) joined
              (cons_other policy_id id c p qs qs' h other),
        )
      ]

-- The policies are those that the settings and the overrides give.
abbrev pub IsBuilt : RetentionPolicyResolver → Type 0
IsBuilt r = build_all r.config r.overrides r.config.policies ≡ some r.policies

-- On a resolver whose policies are built of its settings, an update of a known policy that changes
-- something, with a period and a mode that are accepted, is made: the resolver stays built, the policy
-- has the period, the mode and the switch of the change where it has one and keeps the rest but for the
-- note on the update, every other policy is as it was, and the old and the new policy are returned.
pub update-AreChanged :
    (digest : Dict String RetentionPolicy → String) (policy_id : String) (c : Change)
    (r : RetentionPolicyResolver) (p : RetentionPolicy)
    → IsBuilt r
    → lookup String-discrete policy_id r.policies ≡ some p
    → period_accepted c.retention_period ≡ true
    → mode_accepted c.retention_mode ≡ true
    → is_empty_change c ≡ false
    → (r' : RetentionPolicyResolver) × (p' : RetentionPolicy) × (update digest policy_id c r
        ≡ (r', updated p p'))
      × IsBuilt r'
      × IsChanged c p p'
      × AreChanged policy_id c r.policies r'.policies
unfolding update rebuild
update-AreChanged digest policy_id c r p built found period_ok mode_ok some_change =
    let s = with_override policy_id (changes_of c) r in
    let (ps', built', h) =
      build_all-AreChanged r.config policy_id c period_ok mode_ok r.overrides r.config.policies
        r.policies built in
    let (p', found', changed) = h.this p found in
    let r' : RetentionPolicyResolver = record s { policies = ps'; version = digest ps' } in
    (
      r',
      p',
      ap (λ o. update_found digest policy_id c o r) found
          ∙ if_else (not (period_accepted c.retention_period)) _ _ (ap not period_ok)
          ∙ if_else (not (mode_accepted c.retention_mode)) _ _ (ap not mode_ok)
          ∙ if_else (is_empty_change c) _ _ some_change
          ∙ ap (λ o. after_rebuild policy_id p (rebuilt digest o s)) built'
          ∙ ap (λ o. (r', report_policy p o)) found',
      built',
      changed,
      h,
    )
