-- ===== src/Execution/Placing.antt =====
-- src/trading/orders/order_manager.py: `open_order`, `execute_order` and the loop of the thread that
-- executes the queued orders.
use ml_crypto_trading.Prelude.{
  ℕ, zero, suc, String, Option, none, some, List, [], ◌∷◌, ◌++◌, Bool, true, false, or_else,
  if◌then◌else◌,
}
use ml_crypto_trading.Prelude.Text.{is_empty_text}
use ml_crypto_trading.Prelude.Int.{ℤ}
use ml_crypto_trading.Orders.{Order, TradeAction, pending, rejected}
use ml_crypto_trading.Session.Lot.{Votes, Attributions}
use ml_crypto_trading.Session.Matcher.{text_or}
use ml_crypto_trading.Execution.Effects.{
  Error, Action, pure, raise, gets, modify, attempt, ◌>>=◌, ◌>>◌, order_error,
}
use ml_crypto_trading.Execution.State.{
  Services, OrderManager, Placement, order_rejected, runtime_error_captured, publish, add_intent,
  pop_intent, call, with_commit_hash, current_hash,
}
use ml_crypto_trading.Execution.Saving.{unit_of_work, upsert_order}

-- The arguments of `open_order`.
pub record OrderRequest : Type 0 where
  pub ticker_symbol : String
  pub provider_name : String
  pub quantity : ℤ
  pub price : ℤ
  pub trade_action : TradeAction
  pub timestamp : ℕ
  pub commit_hash : Option String
  pub uuid : Option String
  pub winning_strategy : Option String
  pub strategy_votes : Option Votes
  pub strategy_attributions : Option Attributions
  pub decision_id : Option String
  pub regime : Option String

abbrev pub new_order : OrderRequest → String → String → Order
new_order r uuid head = record {
  uuid = uuid;
  provider_name = r.provider_name;
  ticker_symbol = r.ticker_symbol;
  price = r.price;
  quantity = r.quantity;
  trade_action = r.trade_action;
  created_time = r.timestamp;
  commit_hash = text_or r.commit_hash (some head);
  executed_time = none;
  status = some pending;
  fees = none;
  fill_price = none;
  winning_strategy = r.winning_strategy;
  strategy_votes = r.strategy_votes;
  strategy_attributions = r.strategy_attributions;
  slippage = none;
  decision_id = r.decision_id;
  regime = r.regime;
}

abbrev placement_of : Order → Placement
placement_of order = record {
  exchange = order.provider_name;
  uuid = order.uuid;
  ticker_symbol = order.ticker_symbol;
  quantity = order.quantity;
  price = order.price;
  trade_action = order.trade_action;
  created_time = order.created_time;
  commit_hash = or_else (text_or order.commit_hash (some "HEAD")) "HEAD";
  metadata = record {
    winning_strategy = order.winning_strategy;
    strategy_votes = order.strategy_votes;
    strategy_attributions = order.strategy_attributions;
    regime = order.regime;
  };
}

abbrev pub as_rejected : Order → Order
as_rejected order = record order { status = some rejected }

module _ {W : Type 0} where
  -- What the thread does about an order that could not be executed.
  abbrev pub drop_rejected : Order → OrderManager W → OrderManager W
  drop_rejected order s =
      publish (runtime_error_captured order)
        (publish (order_rejected order.ticker_symbol order) (pop_intent order.uuid s))

module _ {W : Type 0} (services : Services W) where
  open services use {place_order, uuid4}

  -- The handler of `execute_order`: the rejection is stored, if it can be, and raised.
  abbrev pub reject_order : Order → Action (OrderManager W) Order
  reject_order order = do
    attempt (unit_of_work services (upsert_order services (as_rejected order))) (λ error. pure tt)
    raise (order_error (as_rejected order))

  abbrev pub place_and_store : Order → Action (OrderManager W) Order
  place_and_store order = do
    call (place_order (placement_of order))
    unit_of_work services (upsert_order services order)
    pure order

  -- `execute_order`: the order with its commit hash.
  unfoldable pub execute_order : Order → Action (OrderManager W) Order
  unfolding unit_of_work upsert_order
  execute_order order = do
    known ← gets (with_commit_hash services order)
    attempt (place_and_store known) (λ error. reject_order known)

  -- `except RuntimeError as exc`
  abbrev pub on_runtime_error : Error → Action (OrderManager W) Unit
  on_runtime_error (order_error order) = modify (drop_rejected order)
  on_runtime_error error = raise error

  abbrev pub work_on : Order → Action (OrderManager W) Unit
  work_on order = attempt (do execute_order order; pure tt) on_runtime_error

  abbrev pub take_next : List Order → Action (OrderManager W) Unit
  take_next [] = pure tt
  take_next (order ∷ rest) = do modify (λ s. record s { order_queue = rest }); work_on order

  abbrev pub process_next : Action (OrderManager W) Unit
  process_next s = take_next s.order_queue s

  abbrev pub unless_stopped : Action (OrderManager W) Unit → Bool → Action (OrderManager W) Unit
  unless_stopped rounds true = pure tt
  unless_stopped rounds false = rounds

  -- `process_order_queue`, for so many rounds of its loop.
  unfoldable pub process_order_queue : ℕ → Action (OrderManager W) Unit
  unfolding execute_order
  process_order_queue zero = pure tt
  process_order_queue (suc n) = do
    stopped ← gets (λ s. s.stopped)
    unless_stopped (do process_next; process_order_queue n) stopped

  -- `uuid or str(uuid4())`
  abbrev pub choose_uuid : Option String → Action (OrderManager W) String
  choose_uuid none s = let (uuid, w) = uuid4 s.world in pure uuid (record s { world = w })
  choose_uuid (some uuid) s =
      if is_empty_text uuid
      then (let (fresh, w) = uuid4 s.world in pure fresh (record s { world = w }))
      else pure uuid s

  abbrev pub submit : Order → Bool → Action (OrderManager W) Order
  submit order true = execute_order order
  submit order false = do
    modify (λ s. record s { order_queue = s.order_queue ++ order ∷ [] })
    pure order

  -- `open_order`
  unfoldable pub open_order : OrderRequest → Action (OrderManager W) Order
  unfolding execute_order
  open_order r = do
    head ← gets (current_hash services)
    uuid ← choose_uuid r.uuid
    modify (add_intent (new_order r uuid head))
    synchronous ← gets (λ s. s.synchronous_execution)
    submit (new_order r uuid head) synchronous
