-- ===== src/Execution/OrderTable.antt =====
-- src/database/dao/order_dao.py,
-- src/database/repositories/mappers/order_db_vs_entity_mapper.py and
-- src/database/repositories/providers/postgres_order_repository.py: the stored orders. The row's own
-- number and the time of its last update are left out.
pub mod RoundTrip
pub mod Final
pub mod Rows
use mathlib.Core.Option as Option
use ml_crypto_trading.Prelude.{
  ℕ, ◌*◌, String, Option, none, some, List, Bool, true, false, not, is_some, select, map,
  if◌then◌else◌,
}
use ml_crypto_trading.Prelude.Text.{String-discrete}
use ml_crypto_trading.Prelude.Dict.{Dict, lookup, insert, values}
use ml_crypto_trading.Prelude.Int.{ℤ}
use ml_crypto_trading.Prelude.Rounding.{round_half_even}
use ml_crypto_trading.Session.Lot.{Votes, Attributions}
use ml_crypto_trading.Orders.{Order, OrderStatus, TradeAction, completed, cancelled, rejected}

-- The entries of the column `metadata`.
pub record Metadata : Type 0 where
  pub winning_strategy : Option String
  pub strategy_votes : Option Votes
  pub strategy_attributions : Option Attributions
  pub regime : Option String

-- A column of texts holds what its text stands for: the text of a `Decimal` is read back as the same
-- decimal, and the value of an enumeration as the same member. Timestamps are microseconds.
pub record OrderDao : Type 0 where
  pub uuid : String
  pub provider_name : String
  pub ticker_symbol : String
  pub price : ℤ
  pub quantity : ℤ
  pub status : OrderStatus
  pub trade_action : TradeAction
  pub commit_hash : Option String
  pub decision_id : Option String
  pub fees : Option ℤ
  pub fill_price : Option ℤ
  pub created_timestamp : ℕ
  pub executed_timestamp : Option ℕ
  pub metadata : Option Metadata

abbrev no_metadata : Metadata
no_metadata = record {
  winning_strategy = none;
  strategy_votes = none;
  strategy_attributions = none;
  regime = none;
}

-- `metadata if metadata else None`
abbrev pub metadata_of : Metadata → Option Metadata
metadata_of m =
    if is_some m.winning_strategy
    then some m
    else if is_some m.strategy_votes
    then some m
    else if is_some m.strategy_attributions
    then some m
    else if is_some m.regime
    then some m
    else none

abbrev pub metadata_or : Option Metadata → Metadata
metadata_or none = no_metadata
metadata_or (some m) = m

-- `datetime.fromtimestamp` of a time, which it rounds to microseconds, and `timestamp` back.
abbrev pub to_datetime : ℕ → ℕ
to_datetime time = round_half_even time 1_000

abbrev pub to_time : ℕ → ℕ
to_time microseconds = microseconds * 1_000

abbrev pub row_of : Order → OrderStatus → OrderDao
row_of order status = record {
  uuid = order.uuid;
  provider_name = order.provider_name;
  ticker_symbol = order.ticker_symbol;
  price = order.price;
  quantity = order.quantity;
  status = status;
  trade_action = order.trade_action;
  commit_hash = order.commit_hash;
  decision_id = order.decision_id;
  fees = order.fees;
  fill_price = order.fill_price;
  created_timestamp = to_datetime order.created_time;
  executed_timestamp = Option.map to_datetime order.executed_time;
  metadata = metadata_of (record {
    winning_strategy = order.winning_strategy;
    strategy_votes = order.strategy_votes;
    strategy_attributions = order.strategy_attributions;
    regime = order.regime;
  });
}

-- `map_to_db`; an order with no status raises, since `None` has no `value`.
abbrev pub row_with : Order → Option OrderStatus → Option OrderDao
row_with order none = none
row_with order (some status) = some (row_of order status)

unfoldable pub map_to_db : Order → Option OrderDao
map_to_db order = row_with order order.status

-- `map_to_entity`
unfoldable pub map_to_entity : OrderDao → Order
map_to_entity row =
    let m = metadata_or row.metadata in
    record {
      uuid = row.uuid;
      provider_name = row.provider_name;
      ticker_symbol = row.ticker_symbol;
      price = row.price;
      quantity = row.quantity;
      trade_action = row.trade_action;
      created_time = to_time row.created_timestamp;
      commit_hash = row.commit_hash;
      executed_time = Option.map to_time row.executed_timestamp;
      status = some row.status;
      fees = row.fees;
      fill_price = row.fill_price;
      winning_strategy = m.winning_strategy;
      strategy_votes = m.strategy_votes;
      strategy_attributions = m.strategy_attributions;
      slippage = none;
      decision_id = row.decision_id;
      regime = m.regime;
    }

-- `TERMINAL_STATUSES`
abbrev pub is_terminal : OrderStatus → Bool
is_terminal completed = true
is_terminal cancelled = true
is_terminal rejected = true
is_terminal _ = false

abbrev pub OrderTable : Type 0
OrderTable = Dict String OrderDao

abbrev or_old {ℓ} : {A : Type ℓ} → Option A → Option A → Option A
or_old none old = old
or_old (some a) old = some a

-- `set_values`: what an update writes over an old row.
abbrev pub set_values : OrderDao → OrderDao → OrderDao
set_values new old = record old {
  price = new.price;
  ticker_symbol = new.ticker_symbol;
  status = new.status;
  commit_hash = or_old new.commit_hash old.commit_hash;
  decision_id = or_old new.decision_id old.decision_id;
  metadata = or_old new.metadata old.metadata;
  fees = or_old new.fees old.fees;
  fill_price = or_old new.fill_price old.fill_price;
  executed_timestamp = or_old new.executed_timestamp old.executed_timestamp;
}

-- `on_conflict_do_update`, which leaves a row with a terminal status as it is.
abbrev pub on_conflict : OrderDao → Option OrderDao → OrderDao
on_conflict new none = new
on_conflict new (some old) = if is_terminal old.status then old else set_values new old

abbrev pub write_row : OrderDao → OrderTable → OrderTable
write_row row table =
    insert String-discrete row.uuid (on_conflict row (lookup String-discrete row.uuid table)) table

abbrev pub write : Option OrderDao → OrderTable → Option OrderTable
write none table = none
write (some row) table = some (write_row row table)

-- `upsert` of an order; `none` stands for an exception.
unfoldable pub upsert : Order → OrderTable → Option OrderTable
unfolding map_to_db
upsert order table = write (map_to_db order) table

-- `get_non_terminal`
unfoldable pub get_non_terminal : OrderTable → List Order
unfolding map_to_entity
get_non_terminal table =
    map map_to_entity (select (λ row. not (is_terminal row.status)) (values table))
