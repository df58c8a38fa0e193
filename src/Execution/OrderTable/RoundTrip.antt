-- ===== src/Execution/OrderTable/RoundTrip.antt =====
-- src/database/repositories/mappers/order_db_vs_entity_mapper.py: orders against their rows.
use mathlib.Core.Option as Option
use ml_crypto_trading.Prelude.{
  ℕ, ◌+◌, ◌*◌, ◌≤◌, arith, String, Option, none, some, ◌≡◌, refl, sym, ap,
}
use ml_crypto_trading.Session.Lot.{Votes, Attributions}
use ml_crypto_trading.Orders.{Order, OrderStatus}
use ml_crypto_trading.Execution.OrderTable.{
  OrderDao, metadata_of, metadata_or, row_of, row_with, map_to_db, map_to_entity, to_time,
  to_datetime,
}

-- A time as it is read back: the microsecond that is nearest to it.
abbrev pub stored_time : ℕ → ℕ
stored_time time = to_time (to_datetime time)

stored_time_near : (t : ℕ) → (stored_time t ≤ t + 500) × (t ≤ stored_time t + 500)
stored_time_near t = (ground arith, ground arith)

stored_time_whole : (k : ℕ) → stored_time (k * 1_000) ≡ k * 1_000
stored_time_whole k = ground arith

stored_option :
    (o : Option ℕ) → Option.map to_time (Option.map to_datetime o) ≡ Option.map stored_time o
stored_option none = refl
stored_option (some t) = refl

metadata_or-metadata_of :
    (strategy : Option String) (votes : Option Votes) (attributions : Option Attributions)
    (regime : Option String)
    → metadata_or (
        metadata_of (record {
          winning_strategy = strategy;
          strategy_votes = votes;
          strategy_attributions = attributions;
          regime = regime;
        }))
      ≡ record {
        winning_strategy = strategy;
        strategy_votes = votes;
        strategy_attributions = attributions;
        regime = regime;
      }
metadata_or-metadata_of (some a) votes attributions regime = refl
metadata_or-metadata_of none (some b) attributions regime = refl
metadata_or-metadata_of none none (some c) regime = refl
metadata_or-metadata_of none none none (some d) = refl
metadata_or-metadata_of none none none none = refl

-- An order with a status is stored and read back with its fields, but that the slippage, which has no
-- column, is lost, and that times come back as the nearest microsecond, and so unchanged if they are
-- whole microseconds; an order with no status cannot be stored.
pub map_to_entity-map_to_db :
    (order : Order)
    → ((status : OrderStatus)
        → order.status ≡ some status
        → (row : OrderDao) × (map_to_db order ≡ some row)
          × (map_to_entity row ≡ record order {
            created_time = stored_time order.created_time;
            executed_time = Option.map stored_time order.executed_time;
            slippage = none;
          }))
      × ((t : ℕ) → (stored_time t ≤ t + 500) × (t ≤ stored_time t + 500))
      × ((k : ℕ) → stored_time (k * 1_000) ≡ k * 1_000)
      × (order.status ≡ none → map_to_db order ≡ none)
unfolding map_to_db map_to_entity
map_to_entity-map_to_db order = (
  λ status e. (
    row_of order status,
    ap (row_with order) e,
    λ i.
        let m =
          metadata_or-metadata_of order.winning_strategy order.strategy_votes
            order.strategy_attributions order.regime i in
        record order {
          status = sym e i;
          winning_strategy = m.winning_strategy;
          strategy_votes = m.strategy_votes;
          strategy_attributions = m.strategy_attributions;
          created_time = stored_time order.created_time;
          executed_time = stored_option order.executed_time i;
          slippage = none;
          regime = m.regime;
        },
  ),
  stored_time_near,
  stored_time_whole,
  λ e. ap (row_with order) e,
)
