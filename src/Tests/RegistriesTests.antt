-- ===== src/Tests/RegistriesTests.antt =====
-- The theorems about src/core/registry at concrete inputs.
use ml_crypto_trading.Prelude.{ℕ, ℕ_discrete, List, [], ◌∷◌, ◌≢◌}
use ml_crypto_trading.Prelude.Dict.{Dict}
use ml_crypto_trading.Registries.Multi.{
  Change, adding, removing, run, get_first, raised as multi_raised, registered_but_empty,
  get_first-run,
}

abbrev entries : Dict ℕ ℕ
entries = (1, 10) ∷ (2, 20) ∷ []

abbrev changes : List (Change ℕ_discrete ℕ_discrete)
changes = adding 1 10 ∷ adding 1 11 ∷ removing 1 10 ∷ removing 1 11 ∷ adding 2 20 ∷ []

get_first-run_example :
    get_first ℕ_discrete ℕ_discrete 1 (run ℕ_discrete ℕ_discrete changes [])
    ≢ multi_raised registered_but_empty
get_first-run_example = get_first-run ℕ_discrete ℕ_discrete changes 1
