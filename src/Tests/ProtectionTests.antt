-- ===== src/Tests/ProtectionTests.antt =====
-- The theorems about src/trading/protection/protection_manager.py and src/trading/accounts at concrete
-- inputs.
use ml_crypto_trading.Prelude.{
  ℕ_discrete, refl, true, false, none, List, [], ◌∷◌, ◌≡◌, ◌≢◌, ℕ, arith, String, ◌+◌,
}
use ml_crypto_trading.Prelude.Int.{pos}
use ml_crypto_trading.Orders.{buy}
use ml_crypto_trading.Protection.{
  ProtectionManager, Change, pausing, resuming, resuming_asset, guarding, can_trade, pause_asset,
  run, can_trade-run,
}
use ml_crypto_trading.Accounts.{
  AccountState, Update, Currency-discrete, get_balance, update_balance, version_of, update_all,
  count_of, version_of-update_all,
}

abbrev unguarded : ProtectionManager
unguarded = record { guards = []; is_paused = false; paused_assets = [] }

abbrev another : ℕ
another = 5

abbrev changes : List Change
changes = pausing ∷ resuming ∷ resuming_asset another ∷ guarding 4 (λ action. true) ∷ []

differ : another ≢ 4
differ e = omega (arith, e)

can_trade-run_example : can_trade 4 buy (run changes (pause_asset 4 unguarded)) ≡ false
can_trade-run_example = can_trade-run 4 buy changes unguarded (tt, (tt, (differ, (tt, tt))))

abbrev account : AccountState
account = record {
  exchange = "KRAKEN";
  account_id = "default";
  balances = [];
  last_reconciliation_time = 0;
}

abbrev deposit : Update
deposit = record {
  available = pos 100;
  total = none;
  reserved = none;
  source = "WS";
  timestamp = 3;
}

abbrev deposits : List (String × Update)
deposits = ("usd", deposit) ∷ ("eur", deposit) ∷ ("USD", deposit) ∷ []

version_of-update_all_example :
    version_of (get_balance "Usd" (update_all deposits account))
    ≡ version_of (get_balance "Usd" account) + count_of "Usd" deposits
version_of-update_all_example = version_of-update_all deposits "Usd" account

two_deposits : version_of (get_balance "Usd" (update_all deposits account)) ≡ 2
unfolding update_balance Currency-discrete ℕ_discrete
two_deposits = refl
