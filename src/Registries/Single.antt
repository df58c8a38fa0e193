-- ===== src/Registries/Single.antt =====
-- src/core/registry/registry.py, over any keys with decidable equality.
use ml_crypto_trading.Prelude.{
  Option, none, some, ◌≡◌, ◌∙◌, ap, if◌then◌else◌, if_then, if_else, is_some,
}
use ml_crypto_trading.Prelude.Dict.{
  Dict, lookup, insert, erase, contains, lookup-insert_self, erase-insert_new,
}

pub data RegistryError : Type 0 where
  already_registered not_registered : RegistryError

pub data Outcome {ℓ} (A : Type ℓ) : Type ℓ where
  raised : RegistryError → Outcome A
  done : A → Outcome A

module _ {ℓ} {K V : Type ℓ} (dec : Discrete K) where
  -- `register`
  unfoldable pub register : K → V → Dict K V → Outcome (Dict K V)
  register key entry d =
      if contains dec key d then raised already_registered else done (insert dec key entry d)

  -- `replace`
  abbrev pub replace : K → V → Dict K V → Dict K V
  replace key entry d = insert dec key entry d

  abbrev found : Option V → Outcome V
  found none = raised not_registered
  found (some v) = done v

  -- `get` and `find`
  abbrev pub get : K → Dict K V → Outcome V
  get key d = found (lookup dec key d)

  abbrev pub find : K → Dict K V → Option V
  find key d = lookup dec key d

  abbrev popped : K → Dict K V → Option V → Outcome (Dict K V × V)
  popped key d none = raised not_registered
  popped key d (some v) = done (erase dec key d, v)

  -- `unregister`
  unfoldable pub unregister : K → Dict K V → Outcome (Dict K V × V)
  unregister key d = popped key d (lookup dec key d)

module _ {ℓ} {K V : Type ℓ} (dec : Discrete K) where
  -- Registering a new key succeeds; the key is then found with its value and cannot be registered
  -- again, and unregistering it returns the value and the registry as it was.
  unregister-register :
      (key : K) (entry other : V) (d : Dict K V)
      → lookup dec key d ≡ none
      → (d' : Dict K V) × (register dec key entry d ≡ done d')
        × (get dec key d' ≡ done entry)
        × (register dec key other d' ≡ raised already_registered)
        × (unregister dec key d' ≡ done (d, entry))
  unfolding register unregister
  unregister-register key entry other d h =
      let new : lookup dec key (insert dec key entry d) ≡ some entry =
        lookup-insert_self dec key entry d in
      (
        insert dec key entry d,
        if_else (contains dec key d) _ _ (ap is_some h),
        ap (found dec) new,
        if_then (contains dec key (insert dec key entry d)) _ _ (ap is_some new),
        ap (popped dec key (insert dec key entry d)) new
            ∙ ap (λ (r : Dict K V). done (r, entry)) (erase-insert_new dec key entry d h),
      )
