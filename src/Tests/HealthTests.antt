-- ===== src/Tests/HealthTests.antt =====
-- The theorems about src/trading/health at concrete inputs.
use ml_crypto_trading.Prelude.{
  ◌≡◌, refl, inl, true, false, not, ◌&&◌, none, some, List, [], ◌∷◌, any, is_some,
}
use ml_crypto_trading.Prelude.Dict.{lookup}
use ml_crypto_trading.Prelude.Text.{String-discrete}
use ml_crypto_trading.Health.Models.{
  Severity, trading, starting, ready, exchange_unavailable, new_orders, HealthObservation,
  exchange_scope, asset_scope, global_scope,
}
use ml_crypto_trading.Health.Registry.{
  default_config, Key-discrete, Registry, key_of, new_condition, get_active_conditions,
}
use ml_crypto_trading.Health.Registry.Recovery.{
  observe_all, observe_all_recovers, observe_all_keeps_fatal,
}
use ml_crypto_trading.Health.Permission.Table.{grants, blocked}
use ml_crypto_trading.Health.Transition.{evaluate}
use ml_crypto_trading.Health.Transition.Safety.{IsSafe, evaluate-IsSafe}
use ml_crypto_trading.Health.Monitor.{create, Call, report, set, has_permission, run}
use ml_crypto_trading.Health.Monitor.Invariant.{IsSound, run-create-IsSound, has_permission-table}
use ml_crypto_trading.Health.Monitor.Replay.{Leads, run-create-Leads}

abbrev exchange_down : HealthObservation
exchange_down = record {
  source = "probe";
  condition = exchange_unavailable;
  scope = exchange_scope "CRYPTO_COM";
  healthy = false;
  observed_at = 5;
  severity = Severity.critical;
  measured_value = none;
  threshold = none;
  metadata = [];
}

abbrev exchange_up : HealthObservation
exchange_up = record exchange_down { healthy = true; observed_at = 6 }

abbrev all_lost : HealthObservation
all_lost = record exchange_down { scope = global_scope; severity = Severity.fatal }

abbrev registry_of : HealthObservation → Registry
registry_of o = record { config = default_config; active = (key_of o, new_condition o) ∷ [] }

abbrev calls : List Call
calls = set ready 1 1 ∷ set trading 2 2 ∷ report exchange_down 5 ∷ report exchange_up 6 ∷ []

has_permission-table_example :
    let m = (run calls (create default_config starting 0)).0 in
    has_permission (asset_scope "BTC_USD") new_orders (some "CRYPTO_COM") none m ≡ (
      grants m.machine.state new_orders
      && not (
          any
            (blocked
              (some (asset_scope "BTC_USD"))
              (some "CRYPTO_COM")
              none
              m.machine.state
              new_orders)
            (get_active_conditions m.registry)))
has_permission-table_example =
    has_permission-table default_config starting 0 calls (asset_scope "BTC_USD") new_orders
      (some "CRYPTO_COM") none

run-create-IsSound_example : IsSound (run calls (create default_config starting 0)).0
run-create-IsSound_example = run-create-IsSound default_config starting 0 calls

run-create-Leads_example :
    let (m, events) = run calls (create default_config starting 0) in
    Leads starting events m.machine.state
run-create-Leads_example = run-create-Leads default_config starting 0 calls

evaluate-IsSafe_example :
    IsSafe
      (evaluate trading (new_condition exchange_down ∷ []) none)
      (new_condition exchange_down ∷ [])
evaluate-IsSafe_example = evaluate-IsSafe trading (new_condition exchange_down ∷ []) none (inl refl)

observe_all_recovers_example :
    is_some (
      lookup Key-discrete
        (key_of exchange_down)
        (observe_all
          (exchange_up ∷ exchange_up ∷ exchange_up ∷ [])
          (registry_of exchange_down)).active)
    ≡ false
unfolding Key-discrete String-discrete
observe_all_recovers_example =
    observe_all_recovers (key_of exchange_down) (registry_of exchange_down) exchange_up
      (exchange_up ∷ exchange_up ∷ []) (new_condition exchange_down) refl refl refl
      ((refl, refl), ((refl, refl), ((refl, refl), tt)))

observe_all_keeps_fatal_example :
    is_some (
      lookup Key-discrete
        (key_of all_lost)
        (observe_all (record all_lost { healthy = true } ∷ []) (registry_of all_lost)).active)
    ≡ true
unfolding Key-discrete String-discrete
observe_all_keeps_fatal_example =
    observe_all_keeps_fatal (key_of all_lost) (registry_of all_lost)
      (record all_lost { healthy = true } ∷ []) (new_condition all_lost) refl (inl refl)
      ((refl, refl), tt)
