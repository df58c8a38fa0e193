-- ===== src/Retention/Policy/Confirmed.antt =====
-- src/retention/policy_resolver.py: what a change of a policy that nobody confirms may do.
use ml_crypto_trading.Prelude.{
  Option, none, some, Bool, true, false, not, ◌&&◌, if◌then◌else◌, ◌≡◌, refl, arith,
}
use mathlib.Core.Option.{some-injective}
use ml_crypto_trading.Prelude.Int.{ℤ, ◌≤ℤ◌, int_laws}
use ml_crypto_trading.Retention.Policy.{
  RetentionMode, RetentionPolicy, delete, archive, aggregate_then_delete, keep, grace_delta,
  cutoff_of, cutoff, is_destructive, same_mode, is_shorter, requires_confirmation,
}

same_mode_lem : (a b : RetentionMode) → same_mode a b ≡ true → b ≡ a
same_mode_lem delete delete h = refl
same_mode_lem archive archive h = refl
same_mode_lem aggregate_then_delete aggregate_then_delete h = refl
same_mode_lem keep keep h = refl
same_mode_lem delete archive h = cc
same_mode_lem delete aggregate_then_delete h = cc
same_mode_lem delete keep h = cc
same_mode_lem archive delete h = cc
same_mode_lem archive aggregate_then_delete h = cc
same_mode_lem archive keep h = cc
same_mode_lem aggregate_then_delete delete h = cc
same_mode_lem aggregate_then_delete archive h = cc
same_mode_lem aggregate_then_delete keep h = cc
same_mode_lem keep delete h = cc
same_mode_lem keep archive h = cc
same_mode_lem keep aggregate_then_delete h = cc

-- The tests that a change passes if it needs no confirmation.
tests_passed :
    (destructive same old_enabled new_enabled : Bool) (rest : Option Bool)
    → (if destructive && not same
        then some true
        else if destructive && not old_enabled && new_enabled
        then some true
        else rest)
      ≡ some false
    → destructive ≡ true
    → new_enabled ≡ true
    → (same ≡ true) × (old_enabled ≡ true) × (rest ≡ some false)
tests_passed true true true true rest h d e = (refl, refl, h)
tests_passed true true true false rest h d e = cc
tests_passed true true false true rest h d e = cc
tests_passed true true false false rest h d e = cc
tests_passed true false old new rest h d e = cc
tests_passed false same old new rest h d e = cc

-- A cutoff is not later than another, if there are both.
abbrev pub NotLater : Option (Option ℤ) → Option (Option ℤ) → Type 0
NotLater (some (some d)) (some (some c)) = d ≤ℤ c
NotLater _ _ = Unit

not_later :
    (now : ℤ) (old new : Option (Option ℤ)) (grace : Option ℤ)
    → is_shorter old new ≡ some false
    → NotLater (cutoff_of now new grace) (cutoff_of now old grace)
not_later now (some (some p)) (some (some q)) (some g) h =
    let kept : p ≤ℤ q = ground (arith, some-injective _ _ h) in omega int_laws
not_later now (some (some p)) (some (some q)) none h = tt
not_later now (some none) (some (some q)) (some g) h = tt
not_later now (some none) (some (some q)) none h = tt
not_later now none (some (some q)) grace h = cc
not_later now old (some none) grace h = tt
not_later now old none grace h = tt

-- If a change of a policy to one that is enabled and deletes needs no confirmation, the mode was the
-- same and the policy was enabled before; and the cutoff after the change, counted with the grace period
-- of before, is not later than the cutoff before it, if there are both: what was kept is not deleted.
pub requires_confirmation-cutoff :
    (old new : RetentionPolicy) (now : ℤ)
    → requires_confirmation old new ≡ some false
    → is_destructive new.retention_mode ≡ true
    → new.enabled ≡ true
    → (old.retention_mode ≡ new.retention_mode)
      × (old.enabled ≡ true)
      × NotLater (cutoff (record new { grace_period = old.grace_period }) now) (cutoff old now)
unfolding requires_confirmation cutoff
requires_confirmation-cutoff old new now h destructive enabled =
    let (same, was, shorter) =
      tests_passed (is_destructive new.retention_mode)
        (same_mode new.retention_mode old.retention_mode) old.enabled new.enabled _ h destructive
        enabled in
    (same_mode_lem _ _ same, was, not_later now _ _ (grace_delta old) shorter)
