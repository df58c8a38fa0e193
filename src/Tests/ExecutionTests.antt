-- ===== src/Tests/ExecutionTests.antt =====
-- The theorems about src/trading/orders and its stored orders at concrete inputs. The exchange takes
-- the orders of one provider only, and the world counts the calls.
use ml_crypto_trading.Prelude.{
  ℕ, ◌+◌, ◌*◌, ◌≤◌, String, none, some, List, [], ◌∷◌, false, ite, All, map, inl, ◌≡◌, refl, arith,
}
use ml_crypto_trading.Prelude.Int.{pos, ◌*ℤ◌}
use ml_crypto_trading.Prelude.Text.{String-discrete, decide_by}
use ml_crypto_trading.Prelude.Dict.{lookup}
use ml_crypto_trading.Prelude.Decimal.{DecimalContext}
use ml_crypto_trading.Orders.{Order, OrderStatus, buy, pending, completed}
use ml_crypto_trading.Session.Manager.{SessionManager}
use ml_crypto_trading.Session.Manager.Sound.{IsSound}
use ml_crypto_trading.Execution.OrderTable.{OrderDao, row_of, map_to_db, map_to_entity, upsert}
use ml_crypto_trading.Execution.OrderTable.RoundTrip.{stored_time, map_to_entity-map_to_db}
use ml_crypto_trading.Execution.OrderTable.Final.{upserts, upserts_keep_terminal}
use ml_crypto_trading.Execution.Effects.{
  gives, raises, returned, runtime_error, ◌>>=◌, attempt, each,
}
use ml_crypto_trading.Execution.State.{Services, OrderManager, call}
use ml_crypto_trading.Execution.Saving.{unit_of_work, upsert_order}
use ml_crypto_trading.Execution.Placing.{
  OrderRequest, execute_order, process_order_queue, new_order,
}
use ml_crypto_trading.Execution.Orderly.{IsOrderly}
use ml_crypto_trading.Execution.Orderly.Runs.{
  Command, request, work, update, reconcile, stop_all, run, run-IsOrderly,
}
use ml_crypto_trading.Execution.Liveness.Worker.{IsDrained, process_order_queue-IsDrained}
use ml_crypto_trading.Execution.Guard.Taken.{IsGuarded}
use ml_crypto_trading.Execution.Guard.Steps.{works, done, then, IsBlocked, Steps-IsBlocked}

abbrev exact : DecimalContext
exact = record { milli = 1; mul = ◌*ℤ◌; div = λ a b. a }

abbrev exchange : Services ℕ
exchange = record {
  place_order =
      λ p n. (ite (String-discrete p.exchange "KRAKEN") (gives tt) (raises runtime_error), n + 1);
  cancel_order = λ provider uuid n. (gives tt, n + 1);
  get_order = λ provider uuid n. (gives none, n + 1);
  get_open_orders = λ provider ticker n. (gives [], n + 1);
  registered_services = λ n. "KRAKEN" ∷ [];
  subscribe_order_update = λ listing n. (gives tt, n + 1);
  unsubscribe_order_update = λ listing n. (gives tt, n + 1);
  record_fill = λ order n. (gives tt, n + 1);
  get_unit_of_work = λ n. (gives tt, n + 1);
  run_statement = λ n. (gives tt, n + 1);
  upsert_trade = λ trade n. (gives tt, n + 1);
  complete = λ n. (gives tt, n + 1);
  rollback = λ n. n + 1;
  head_commit = λ n. none;
  draw = λ n. (record { lot_id = "lot"; trade_ids = λ k. "trade" }, n + 1);
  uuid4 = λ n. ("drawn", n + 1);
}

abbrev asking : String → String → OrderRequest
asking uuid provider = record {
  ticker_symbol = "BTC_USD";
  provider_name = provider;
  quantity = pos 2;
  price = pos 100;
  trade_action = buy;
  timestamp = 7;
  commit_hash = none;
  uuid = some uuid;
  winning_strategy = some "trend";
  strategy_votes = none;
  strategy_attributions = none;
  decision_id = none;
  regime = none;
}

abbrev order_at : String → String → Order
order_at uuid provider = new_order (asking uuid provider) uuid "HEAD"

abbrev no_session : SessionManager
no_session = record { current_session = none; is_running = false }

abbrev manager : List Order → OrderManager ℕ
manager queue = record {
  in_flight_orders = map (λ (o : Order). (o.uuid, (o.ticker_symbol, o.trade_action))) queue;
  order_queue = queue;
  synchronous_execution = false;
  stopped = false;
  assets = [];
  session_manager = no_session;
  orders = [];
  published = [];
  world = 0;
}

no_session-IsSound : IsSound no_session
no_session-IsSound = record { running = λ e. cc; settled = tt }

abbrev commands : List Command
commands =
    request (asking "first" "KRAKEN")
    ∷ request (asking "second" "NOWHERE")
    ∷ work 2
    ∷ update (record (order_at "first" "KRAKEN") { status = some completed } ∷ [])
    ∷ reconcile
    ∷ stop_all
    ∷ []

run-IsOrderly_example :
    (s : OrderManager ℕ) × (run exact exchange commands (manager []) ≡ returned tt s) × IsOrderly s
run-IsOrderly_example =
    run-IsOrderly exact exchange commands (manager [])
      (refl, (refl, (tt, ((refl, tt), (tt, (tt, tt))))))
      (record { session = no_session-IsSound; rows = tt; queue = tt })

abbrev two_orders : List Order
two_orders = order_at "first" "KRAKEN" ∷ order_at "second" "NOWHERE" ∷ []

process_order_queue-IsDrained_example :
    (s : OrderManager ℕ) × (process_order_queue exchange 3 (manager two_orders) ≡ returned tt s)
    × IsDrained exchange two_orders (manager two_orders) s
process_order_queue-IsDrained_example =
    process_order_queue-IsDrained exchange 3 (manager two_orders) refl (omega arith)

map_to_entity-map_to_db_example :
    ((status : OrderStatus)
      → some pending ≡ some status
      → (row : OrderDao) × (map_to_db (order_at "first" "KRAKEN") ≡ some row)
        × (map_to_entity row ≡ record (order_at "first" "KRAKEN") {
          created_time = stored_time (order_at "first" "KRAKEN").created_time;
          slippage = none;
        }))
    × ((t : ℕ) → (stored_time t ≤ t + 500) × (t ≤ stored_time t + 500))
    × ((k : ℕ) → stored_time (k * 1_000) ≡ k * 1_000)
    × ((order_at "first" "KRAKEN").status ≡ none → map_to_db (order_at "first" "KRAKEN") ≡ none)
map_to_entity-map_to_db_example = map_to_entity-map_to_db (order_at "first" "KRAKEN")

abbrev filled_row : OrderDao
filled_row = row_of (order_at "first" "KRAKEN") completed

upserts_keep_terminal_example :
    lookup String-discrete "first" (upserts two_orders (("first", filled_row) ∷ []))
    ≡ some filled_row
unfolding String-discrete decide_by
upserts_keep_terminal_example =
    upserts_keep_terminal two_orders "first" filled_row (("first", filled_row) ∷ []) refl refl

manager-IsGuarded : IsGuarded (manager two_orders)
unfolding String-discrete decide_by
manager-IsGuarded = record {
  session = no_session-IsSound;
  waiting = refl;
  distinct = (refl, (refl, tt));
  quantities = (refl, (refl, tt));
  intended = (refl, (refl, tt));
  rows = tt;
}

abbrev after_one : OrderManager ℕ
after_one = elim (process_order_queue exchange 1 (manager two_orders)) [
  | returned u s ↦ s
  | _ ↦ manager two_orders
]

one_round : process_order_queue exchange 1 (manager two_orders) ≡ returned tt after_one
unfolding process_order_queue execute_order unit_of_work upsert_order upsert map_to_db call ◌>>=◌
    attempt each String-discrete decide_by
one_round = refl

Steps-IsBlocked_example :
    All (IsBlocked exact exchange after_one) after_one.order_queue × IsGuarded after_one
Steps-IsBlocked_example =
    Steps-IsBlocked exact exchange (manager two_orders) after_one
      (then done (works 1 (inl (tt, one_round)))) manager-IsGuarded
