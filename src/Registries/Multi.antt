-- ===== src/Registries/Multi.antt =====
-- src/core/registry/multi_registry.py, over any keys and values with decidable equality.
use ml_crypto_trading.Prelude.{
  Option, none, some, List, [], ◌∷◌, ◌++◌, ◌≡◌, ◌≢◌, refl, ite, or_else,
}
use ml_crypto_trading.Prelude.Dict.{
  Dict, lookup, insert, erase, IsValid, insert-IsValid, erase-IsValid, lookup-IsValid,
}

pub data MultiError : Type 0 where
  not_registered registered_but_empty entry_not_registered : MultiError

pub data MultiOutcome {ℓ} (A : Type ℓ) : Type ℓ where
  raised : MultiError → MultiOutcome A
  done : A → MultiOutcome A

module _ {ℓ} {K V : Type ℓ} (dec : Discrete K) (dec_value : Discrete V) where
  -- `register`
  unfoldable pub register : K → V → Dict K (List V) → Dict K (List V)
  register key entry d = insert dec key (or_else (lookup dec key d) [] ++ entry ∷ []) d

  abbrev found : Option (List V) → MultiOutcome (List V)
  found none = raised not_registered
  found (some entries) = done entries

  -- `get`
  abbrev pub get : K → Dict K (List V) → MultiOutcome (List V)
  get key d = found (lookup dec key d)

  abbrev first_of : MultiOutcome (List V) → MultiOutcome V
  first_of (raised e) = raised e
  first_of (done []) = raised registered_but_empty
  first_of (done (v ∷ vs)) = done v

  -- `get_first`
  unfoldable pub get_first : K → Dict K (List V) → MultiOutcome V
  get_first key d = first_of (get key d)

  -- `entries.remove(entry)`: none for an entry that is not there.
  abbrev pub remove : V → List V → Option (List V)
  remove entry [] = none
  remove entry (v ∷ vs) =
      let rest = remove entry vs in
      ite (dec_value v entry) (some vs) (elim rest [ none ↦ none | some ws ↦ some (v ∷ ws) ])

  abbrev pub put_back : K → Option (List V) → Dict K (List V) → MultiOutcome (Dict K (List V))
  put_back key none d = raised entry_not_registered
  put_back key (some []) d = done (erase dec key d)
  put_back key (some (v ∷ vs)) d = done (insert dec key (v ∷ vs) d)

  abbrev pub unregister_in :
      K → V → Option (List V) → Dict K (List V) → MultiOutcome (Dict K (List V))
  unregister_in key entry none d = raised not_registered
  unregister_in key entry (some entries) d = put_back key (remove entry entries) d

  -- `unregister`
  unfoldable pub unregister : K → V → Dict K (List V) → MultiOutcome (Dict K (List V))
  unregister key entry d = unregister_in key entry (lookup dec key d) d

  -- The calls that change a registry; one that raises leaves it as it is.
  pub data Change : Type ℓ where
    adding removing : K → V → Change
    clearing : Change

  abbrev after : MultiOutcome (Dict K (List V)) → Dict K (List V) → Dict K (List V)
  after (raised e) d = d
  after (done d') d = d'

  abbrev pub change : Change → Dict K (List V) → Dict K (List V)
  change (adding key entry) d = register key entry d
  change (removing key entry) d = after (unregister key entry d) d
  change clearing d = []

  abbrev pub run : List Change → Dict K (List V) → Dict K (List V)
  run [] d = d
  run (c ∷ changes) d = run changes (change c d)

  -- A list that is not empty.
  abbrev IsFilled : K → List V → Type ℓ
  IsFilled key entries = entries ≢ []

  append-IsFilled : (key : K) (xs : List V) (v : V) → IsFilled key (xs ++ v ∷ [])
  append-IsFilled key [] v e = cc
  append-IsFilled key (x ∷ xs) v e = cc

  put_back-IsFilled :
      (key : K) (o : Option (List V)) (d : Dict K (List V))
      → IsValid dec IsFilled d
      → IsValid dec IsFilled (after (put_back key o d) d)
  put_back-IsFilled key none d h = h
  put_back-IsFilled key (some []) d h = erase-IsValid dec IsFilled key d h
  put_back-IsFilled key (some (v ∷ vs)) d h = insert-IsValid dec IsFilled key (v ∷ vs) d (λ e. cc) h

  unregister_in-IsFilled :
      (key : K) (entry : V) (o : Option (List V)) (d : Dict K (List V))
      → IsValid dec IsFilled d
      → IsValid dec IsFilled (after (unregister_in key entry o d) d)
  unregister_in-IsFilled key entry none d h = h
  unregister_in-IsFilled key entry (some entries) d h =
      put_back-IsFilled key (remove entry entries) d h

  change-IsFilled :
      (c : Change) (d : Dict K (List V))
      → IsValid dec IsFilled d
      → IsValid dec IsFilled (change c d)
  unfolding register unregister
  change-IsFilled (adding key entry) d h =
      insert-IsValid dec IsFilled key _ d
        (append-IsFilled key (or_else (lookup dec key d) []) entry) h
  change-IsFilled (removing key entry) d h = unregister_in-IsFilled key entry (lookup dec key d) d h
  change-IsFilled clearing d h = tt

  run-IsFilled :
      (changes : List Change) (d : Dict K (List V))
      → IsValid dec IsFilled d
      → IsValid dec IsFilled (run changes d)
  run-IsFilled [] d h = h
  run-IsFilled (c ∷ changes) d h = run-IsFilled changes (change c d) (change-IsFilled c d h)

  first_of-found :
      (key : K) (o : Option (List V))
      → ((vs : List V) → o ≡ some vs → IsFilled key vs)
      → first_of (found o) ≢ raised registered_but_empty
  first_of-found key none h e = cc
  first_of-found key (some []) h e = h [] refl refl
  first_of-found key (some (v ∷ vs)) h e = cc

  -- In a registry that is reached from the empty one by registering, unregistering and clearing, the
  -- first value of a key is never missing because the key's list is empty.
  pub get_first-run :
      (changes : List Change) (key : K)
      → get_first key (run changes []) ≢ raised registered_but_empty
  unfolding get_first
  get_first-run changes key =
      first_of-found key (lookup dec key (run changes []))
        (λ vs e. lookup-IsValid dec IsFilled key (run changes []) (run-IsFilled changes [] tt) e)
