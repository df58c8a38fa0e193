-- ===== src/Tests/SessionTests.antt =====
-- The theorems about src/trading/session at concrete inputs.
use ml_crypto_trading.Prelude.{
  arith, ap, ℕ_discrete, true, or_else, ◌≢◌, ℕ, ◌≡◌, refl, none, some, List, [], ◌∷◌, map, All,
  false, String,
}
use ml_crypto_trading.Prelude.Int.{pos, ◌+ℤ◌, ◌-ℤ◌, ◌*ℤ◌, ◌≤ℤ◌, min_ℤ, leb_ℤ}
use ml_crypto_trading.Prelude.Text.{same_upper, String-discrete, decide_by}
use ml_crypto_trading.Prelude.Decimal.{DecimalContext, zero_dec}
use ml_crypto_trading.Session.Lot.{PositionLot, Trade}
use ml_crypto_trading.Session.Matcher.{Exit, Matched, match_lots}
use ml_crypto_trading.Session.Matcher.Fifo.{
  total_remaining, total_traded, fifo, fill, IsOpen, match_lots-conserves, match_lots-IsFirstIn,
}
use ml_crypto_trading.Orders.{Order, TradeAction, buy, sell}
use ml_crypto_trading.Session.Context.{
  TradingContext, Fill, new_context, record_buy_fill, record_sell_fill,
}
use ml_crypto_trading.Session.Context.Settled.{IsSettled, record_buy_fill-IsSettled}
use ml_crypto_trading.Session.Context.Profit.{total_net, IsBooked, record_sell_fill-IsBooked}
use ml_crypto_trading.Session.Manager.{SessionManager, SessionTime, Opening, get_trading_context}
use ml_crypto_trading.Session.Manager.Fills.{Recorded, Identifiers, record_order_fill, fill_context}
use ml_crypto_trading.Session.Manager.Sound.{IsSound}
use ml_crypto_trading.Session.Manager.Commands.{
  Command, create, start, open_asset, fill_order, end, run, answers, phase,
}
use ml_crypto_trading.Session.Manager.Runs.{run-IsSound}
use ml_crypto_trading.Session.Manager.Frame.{get_trading_context-record_order_fill}

abbrev whole_units : DecimalContext
whole_units = record { milli = 1; mul = ◌*ℤ◌; div = λ a b. a }

abbrev lot_of : String → ℕ → PositionLot
lot_of uuid quantity = record {
  lot_id = uuid;
  order_uuid = uuid;
  ticker_symbol = "BTC_USD";
  price = pos 100;
  quantity = pos quantity;
  remaining_quantity = pos quantity;
  fee_per_unit = pos 1;
  timestamp = 10;
  slippage_per_unit = zero_dec;
  winning_strategy = none;
  strategy_votes = none;
  strategy_attributions = none;
  regime = none;
}

abbrev sale : Exit
sale = record {
  ticker_symbol = "BTC_USD";
  exit_order_uuid = "exit";
  exit_price = pos 120;
  exit_quantity = pos 5;
  exit_fee = pos 5;
  exit_timestamp = 20;
  commit_hash = none;
  winning_strategy = some "trend";
  strategy_votes = none;
  strategy_attributions = none;
  exit_slippage = zero_dec;
  exit_regime = none;
}

abbrev two_lots : List PositionLot
two_lots = lot_of "first" 3 ∷ lot_of "second" 4 ∷ []

match_lots-conserves_example :
    (m : Matched) × (match_lots whole_units (λ n. "trade") sale two_lots ≡ some m)
    × (total_remaining m.lots +ℤ total_traded m.completed_trades ≡ total_remaining two_lots)
    × (total_traded m.completed_trades +ℤ m.sell_remaining ≡ pos 5)
    × (zero_dec ≤ℤ pos 5 → zero_dec ≤ℤ m.sell_remaining)
match_lots-conserves_example = match_lots-conserves whole_units (λ n. "trade") sale two_lots

match_lots-IsFirstIn_example :
    (m : Matched) × (match_lots whole_units (λ n. "trade") sale two_lots ≡ some m)
    × (map fill m.completed_trades ≡ fifo two_lots (pos 5))
    × All IsOpen m.lots
    × (leb_ℤ m.sell_remaining zero_dec ≡ false → m.lots ≡ [])
match_lots-IsFirstIn_example =
    match_lots-IsFirstIn whole_units (λ n. "trade") sale two_lots (refl, (refl, tt))

fifo-two_lots : fifo two_lots (pos 5) ≡ ("first", pos 3) ∷ ("second", pos 2) ∷ []
unfolding fifo min_ℤ ◌-ℤ◌
fifo-two_lots = refl

abbrev order_of : TradeAction → ℕ → Order
order_of action quantity = record {
  uuid = "order";
  provider_name = "exchange";
  ticker_symbol = "BTC_USD";
  price = pos 100;
  quantity = pos quantity;
  trade_action = action;
  created_time = 1;
  commit_hash = none;
  executed_time = none;
  status = none;
  fees = none;
  fill_price = none;
  winning_strategy = none;
  strategy_votes = none;
  strategy_attributions = none;
  slippage = none;
  decision_id = none;
  regime = none;
}

abbrev fill_with : TradeAction → ℕ → Fill
fill_with action quantity = record {
  order = order_of action quantity;
  fill_price = pos 100;
  quantity = pos quantity;
  fee = zero_dec;
  slippage = zero_dec;
  timestamp = 2;
}

abbrev fresh : TradingContext
fresh = new_context "BTC_USD" "KRAKEN" (pos 1_000) none

fresh-IsSettled : IsSettled fresh
unfolding total_remaining
fresh-IsSettled = record { lots_open = tt; position = refl }

abbrev bought : TradingContext
bought = record_buy_fill whole_units "lot" (fill_with buy 7) fresh

bought-IsSettled : IsSettled bought
bought-IsSettled =
    record_buy_fill-IsSettled whole_units "lot" (fill_with buy 7) fresh refl fresh-IsSettled

within : pos 3 ≤ℤ bought.position_qty
unfolding record_buy_fill ◌+ℤ◌
within = omega arith

record_sell_fill-IsBooked_example :
    (r : TradingContext × List Trade) × (record_sell_fill whole_units
        (λ n. "trade")
        (fill_with sell 3)
        bought
      ≡ some r)
    × IsBooked r.0
unfolding total_net record_buy_fill
record_sell_fill-IsBooked_example =
    record_sell_fill-IsBooked whole_units (λ n. "trade") (fill_with sell 3) bought bought-IsSettled
      within refl

abbrev no_times : SessionTime
no_times = record { start_time = 0; end_time = 0 }

abbrev stopped : SessionManager
stopped = record { current_session = none; is_running = false }

abbrev ids : Identifiers
ids = record { lot_id = "lot"; trade_ids = λ n. "trade" }

abbrev opening : Opening
opening = record {
  asset_key = 4;
  ticker_symbol = "BTC_USD";
  exchange = "KRAKEN";
  starting_balance = pos 1_000;
  initial_position_qty = pos 2;
  initial_entry_price = pos 90;
  timestamp = 0;
}

abbrev commands : List Command
commands =
    create no_times none "session" none
    ∷ start 1
    ∷ open_asset "bootstrap" opening
    ∷ fill_order none ids (order_of buy 7)
    ∷ fill_order none ids (order_of sell 8)
    ∷ end 9
    ∷ []

run-IsSound_example :
    (m : SessionManager) × (run whole_units commands stopped
      ≡ some (answers commands (phase stopped), m))
    × IsSound m
run-IsSound_example =
    run-IsSound whole_units commands stopped (tt, (tt, (tt, (refl, (refl, (tt, tt))))))
      (record { running = λ e. cc; settled = tt })

abbrev other : TradingContext
other = new_context "ETH_USD" "KRAKEN" (pos 500) none

abbrev two_assets : SessionManager
two_assets = record {
  current_session = some (record {
    session_id = "session";
    session_time = no_times;
    trading_contexts = (4, fresh) ∷ (5, other) ∷ [];
    commit_hash = none;
  });
  is_running = true;
}

abbrev bitcoin : Order
bitcoin = order_of buy 7

abbrev recorded : Recorded
recorded =
    or_else (record_order_fill whole_units none ids bitcoin two_assets) (two_assets, bitcoin, [])

recorded_lem : record_order_fill whole_units none ids bitcoin two_assets ≡ some recorded
unfolding record_order_fill fill_context String-discrete decide_by
recorded_lem = refl

different : false ≡ true → ⊥
different e = cc

tickers_differ : other.ticker_symbol ≢ "BTC_USD"
tickers_differ e = different (ap (λ s. same_upper s "BTC_USD") e)

get_trading_context-record_order_fill_example : get_trading_context 5 recorded.0 ≡ some other
unfolding String-discrete decide_by ℕ_discrete
get_trading_context-record_order_fill_example =
    get_trading_context-record_order_fill whole_units none ids bitcoin two_assets 5 other recorded
      (tt, refl, (tt, refl, tt)) refl tickers_differ recorded_lem
