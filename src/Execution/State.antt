-- ===== src/Execution/State.antt =====
-- src/trading/orders/order_manager.py: the state of `OrderManager`, and what it reaches: the exchanges
-- behind src/exchange/managers, the journal, the database's connection, the clock and the identifiers
-- are services on a world of their own. The events are listed in the order of their publication; who
-- follows them is the event bus's affair. The locks are left out: every command is one step.
use ml_crypto_trading.Prelude.{
  ℕ, String, Option, none, some, List, [], ◌∷◌, ◌++◌, Bool, true, false, if◌then◌else◌,
}
use ml_crypto_trading.Prelude.Text.{String-discrete, is_empty_text}
use ml_crypto_trading.Prelude.Dict.{Dict, insert, erase}
use ml_crypto_trading.Prelude.Int.{ℤ}
use ml_crypto_trading.Orders.{Order, OrderStatus, TradeAction, pending, processing}
use ml_crypto_trading.Session.Lot.{Trade}
use ml_crypto_trading.Session.Manager.{SessionManager, get_current_commit_hash}
use ml_crypto_trading.Session.Manager.Fills.{Identifiers}
use ml_crypto_trading.Execution.OrderTable.{Metadata, OrderTable}
use ml_crypto_trading.Execution.Effects.{Answer, Outcome, Action, returned, raised, gives, raises}

-- The arguments of `place_order`; the metadata has the commit hash too.
pub record Placement : Type 0 where
  pub exchange : String
  pub uuid : String
  pub ticker_symbol : String
  pub quantity : ℤ
  pub price : ℤ
  pub trade_action : TradeAction
  pub created_time : ℕ
  pub commit_hash : String
  pub metadata : Metadata

-- The part of an asset that its order updates are subscribed by.
pub record Listing : Type 0 where
  pub exchange : String
  pub ticker_symbol : String

pub data OrderEvent : Type 0 where
  order_rejected : String → Order → OrderEvent
  runtime_error_captured : Order → OrderEvent
  trade_closed : String → Trade → OrderEvent
  position_changed : String → TradeAction → ℤ → ℤ → ℤ → ℤ → OrderEvent
  order_filled : String → Order → OrderEvent
  order_cancelled : String → Order → OrderEvent

abbrev pub Service : Type 0 → Type 0 → Type 0
Service W A = W → Answer A × W

pub record Services (W : Type 0) : Type 0 where
  pub place_order : Placement → Service W Unit
  pub cancel_order : String → String → Service W Unit
  pub get_order : String → String → Service W (Option Order)
  pub get_open_orders : String → Option String → Service W (List Order)
  pub registered_services : W → List String
  pub subscribe_order_update : Listing → Service W Unit
  pub unsubscribe_order_update : Listing → Service W Unit
  pub record_fill : Order → Service W Unit
  pub get_unit_of_work : Service W Unit
  pub run_statement : Service W Unit
  pub upsert_trade : Trade → Service W Unit
  pub complete : Service W Unit
  pub rollback : W → W
  pub head_commit : W → Option String
  pub draw : W → Identifiers × W
  pub uuid4 : W → String × W

pub record OrderManager (W : Type 0) : Type 0 where
  pub in_flight_orders : Dict String (String × TradeAction)
  pub order_queue : List Order
  pub synchronous_execution : Bool
  pub stopped : Bool
  pub assets : List Listing
  pub session_manager : SessionManager
  pub orders : OrderTable
  pub published : List OrderEvent
  pub world : W

-- `OPEN_STATUSES`
abbrev pub is_open : Option OrderStatus → Bool
is_open (some pending) = true
is_open (some processing) = true
is_open _ = false

module _ {W : Type 0} where
  abbrev pub publish : OrderEvent → OrderManager W → OrderManager W
  publish event s = record s { published = s.published ++ event ∷ [] }

  abbrev pub publish_all : List OrderEvent → OrderManager W → OrderManager W
  publish_all events s = record s { published = s.published ++ events }

  abbrev pub add_intent : Order → OrderManager W → OrderManager W
  add_intent order s = record s {
    in_flight_orders =
        insert String-discrete order.uuid (order.ticker_symbol, order.trade_action)
          s.in_flight_orders;
  }

  abbrev pub pop_intent : String → OrderManager W → OrderManager W
  pop_intent uuid s = record s { in_flight_orders = erase String-discrete uuid s.in_flight_orders }

  abbrev pub answered : {A : Type 0} → Answer A × W → OrderManager W → Outcome (OrderManager W) A
  answered (gives a, w) s = returned a (record s { world = w })
  answered (raises error, w) s = raised error (record s { world = w })

  -- A call of a service.
  unfoldable pub call : {A : Type 0} → Service W A → Action (OrderManager W) A
  call service s = answered (service s.world) s

-- `if not order.commit_hash: order.commit_hash = ...get_current_commit_hash()`
abbrev pub lacks_hash : Option String → Bool
lacks_hash none = true
lacks_hash (some hash) = is_empty_text hash

module _ {W : Type 0} (services : Services W) where
  open services use {head_commit}

  abbrev pub current_hash : OrderManager W → String
  current_hash s = get_current_commit_hash (head_commit s.world) s.session_manager

  abbrev pub with_commit_hash : Order → OrderManager W → Order
  with_commit_hash order s =
      if lacks_hash order.commit_hash
      then record order { commit_hash = some (current_hash s) }
      else order
