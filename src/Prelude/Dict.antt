-- ===== src/Prelude/Dict.antt =====
-- Python's `dict`: an association list in insertion order, over keys with decidable equality.
use mathlib.Core.Path.{◌≡◌, refl, sym, ◌∙◌, subst₂}
use mathlib.Core.Logic.{ite, if_pos, if_neg}
use mathlib.Core.Bool.{Bool, true}
use mathlib.Core.Option.{Option, none, some, some-injective}
use mathlib.Core.List.{List, [], ◌∷◌}
use native.Mathlib.Omega.{arith}
use ml_crypto_trading.Prelude.Tests.{is_some}

abbrev pub Dict {ℓ} : Type ℓ → Type ℓ → Type ℓ
Dict K V = List (K × V)

module _ {ℓ} {K V : Type ℓ} where
  -- `d.keys()` and `d.values()`
  abbrev pub keys : Dict K V → List K
  keys [] = []
  keys ((k, v) ∷ d) = k ∷ keys d

  abbrev pub values : Dict K V → List V
  values [] = []
  values ((k, v) ∷ d) = v ∷ values d

module _ {ℓ} {K V : Type ℓ} (dec : Discrete K) where
  -- `d.get(k)`
  abbrev pub lookup : K → Dict K V → Option V
  lookup k [] = none
  lookup k ((j, v) ∷ d) = ite (dec j k) (some v) (lookup k d)

  -- `k in d`
  abbrev pub contains : K → Dict K V → Bool
  contains k d = is_some (lookup k d)

  -- `d[k] = v`: an old key keeps its place, a new one goes to the end.
  abbrev pub insert : K → V → Dict K V → Dict K V
  insert k v [] = (k, v) ∷ []
  insert k v ((j, w) ∷ d) = ite (dec j k) ((k, v) ∷ d) ((j, w) ∷ insert k v d)

  -- `del d[k]`, `d.pop(k, None)`
  abbrev pub erase : K → Dict K V → Dict K V
  erase k [] = []
  erase k ((j, w) ∷ d) = let rest = erase k d in ite (dec j k) rest ((j, w) ∷ rest)

module _ {ℓ} {K V : Type ℓ} (dec : Discrete K) where
  pub lookup-insert :
      (k j : K) (v : V) (d : Dict K V)
      → lookup dec j (insert dec k v d) ≡ ite (dec k j) (some v) (lookup dec j d)
  lookup-insert k j v [] = refl
  lookup-insert k j v ((i, w) ∷ d) = ground (arith, lookup-insert k j v d)

  pub lookup-erase :
      (k j : K) (d : Dict K V) → lookup dec j (erase dec k d) ≡ ite (dec k j) none (lookup dec j d)
  lookup-erase k j [] = ground arith
  lookup-erase k j ((i, w) ∷ d) = ground (arith, lookup-erase k j d)

  pub lookup-insert_self : (k : K) (v : V) (d : Dict K V) → lookup dec k (insert dec k v d) ≡ some v
  lookup-insert_self k v d = ground (arith, lookup-insert k k v d)

-- No key occurs twice, and every entry is as its key says.
abbrev pub IsValid {ℓ} : {K V : Type ℓ} → Discrete K → (K → V → Type ℓ) → Dict K V → Type ℓ
IsValid dec P [] = Unit
IsValid dec P ((k, v) ∷ d) = P k v × (lookup dec k d ≡ none) × IsValid dec P d

module _ {ℓ} {K V : Type ℓ} (dec : Discrete K) (P : K → V → Type ℓ) where
  pub insert-IsValid :
      (k : K) (v : V) (d : Dict K V) → P k v → IsValid dec P d → IsValid dec P (insert dec k v d)
  insert-IsValid k v [] p h = (p, refl, tt)
  insert-IsValid k v ((j, w) ∷ d) p h =
      ground (arith, insert-IsValid k v d p, lookup-insert dec k j v d)

  pub erase-IsValid : (k : K) (d : Dict K V) → IsValid dec P d → IsValid dec P (erase dec k d)
  erase-IsValid k [] h = tt
  erase-IsValid k ((j, w) ∷ d) h = ground (arith, erase-IsValid k d, lookup-erase dec k j d)

  pub lookup-IsValid :
      (k : K) {v : V} (d : Dict K V) → IsValid dec P d → lookup dec k d ≡ some v → P k v
  lookup-IsValid k [] h e = cc
  lookup-IsValid k ((j, w) ∷ d) h e = elim (dec j k) [
    | yes p ↦ subst₂ P p (some-injective _ _ (sym (if_pos (dec j k) p _ _) ∙ e)) h.0
    | no p ↦ lookup-IsValid k d h.2 (sym (if_neg (dec j k) p _ _) ∙ e)
  ]

module _ {ℓ} {K V : Type ℓ} (dec : Discrete K) where
  -- A key that is not there can be neither deleted nor overwritten.
  pub erase_missing : (k : K) (d : Dict K V) → lookup dec k d ≡ none → erase dec k d ≡ d
  erase_missing k [] h = refl
  erase_missing k ((j, w) ∷ d) h = ground (arith, erase_missing k d)

  pub erase-insert_new :
      (k : K) (v : V) (d : Dict K V) → lookup dec k d ≡ none → erase dec k (insert dec k v d) ≡ d
  erase-insert_new k v [] h = ground arith
  erase-insert_new k v ((j, w) ∷ d) h = ground (arith, erase-insert_new k v d)

  -- A key that is there stays there under an update, and one that is not does under a deletion.
  pub contains-insert :
      (k j : K) (v : V) (d : Dict K V)
      → contains dec j d ≡ true
      → contains dec j (insert dec k v d) ≡ true
  contains-insert k j v d h = ground (arith, lookup-insert dec k j v d)

  pub erase_keeps_missing :
      (k j : K) (d : Dict K V) → lookup dec j d ≡ none → lookup dec j (erase dec k d) ≡ none
  erase_keeps_missing k j d h = ground (arith, lookup-erase dec k j d)

  pub lookup-erase_self : (k : K) (d : Dict K V) → lookup dec k (erase dec k d) ≡ none
  lookup-erase_self k d = ground (arith, lookup-erase dec k k d)
