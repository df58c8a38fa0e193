-- ===== src/Session/Manager.antt =====
-- src/trading/session/session_manager.py, `SessionManager` without `record_position`, and the records
-- api/interfaces/trading_session.py and api/interfaces/session_time.py. The reentrant lock is left
-- out: every operation is one step. The clock, the fresh lot identifiers and the head commit of the
-- configuration's repository (`none` when there is none or it cannot be read) are arguments.
pub mod Sound
pub mod Commands
pub mod Runs
pub mod Frame
pub mod Fills
use ml_crypto_trading.Prelude.{
  ℕ, ℕ_discrete, String, Option, none, some, [], ◌∷◌, Bool, true, false, not, ◌&&◌, or_else,
  is_some, if◌then◌else◌, ite,
}
use ml_crypto_trading.Prelude.Text.{
  String-discrete, same_upper, after_underscore, is_empty_text, concat,
}
use ml_crypto_trading.Prelude.Dict.{Dict, lookup, insert, contains}
use ml_crypto_trading.Prelude.Int.{ℤ, ltb_ℤ}
use ml_crypto_trading.Prelude.Decimal.{DecimalContext, zero_dec}
use ml_crypto_trading.Session.Lot.{PositionLot, create_lot}
use ml_crypto_trading.Session.Matcher.{text_or}
use ml_crypto_trading.Session.Context.{TradingContext, new_context}

pub record SessionTime : Type 0 where
  pub start_time : ℕ
  pub end_time : ℕ

pub record TradingSession : Type 0 where
  pub session_id : String
  pub session_time : SessionTime
  pub trading_contexts : Dict ℕ TradingContext
  pub commit_hash : Option String

pub record SessionManager : Type 0 where
  pub current_session : Option TradingSession
  pub is_running : Bool

-- What the manager raises.
pub data SessionError : Type 0 where
  already_running no_session no_active_session : SessionError

pub data Outcome : Type 0 where
  raised : SessionError → Outcome
  done : SessionManager → Outcome

-- The manager after a call: one that raises leaves it as it is.
abbrev pub after : Outcome → SessionManager → SessionManager
after (raised e) m = m
after (done m') m = m'

abbrev pub set_contexts : Dict ℕ TradingContext → TradingSession → SessionManager → SessionManager
set_contexts d s m = record m { current_session = some (record s { trading_contexts = d }) }

-- `create_session`; the times of `SessionTime()` are those of the class's definition.
unfoldable pub create_session :
    SessionTime → Option String → String → Option String → SessionManager → Outcome
create_session times head session_id commit_hash m =
    let session : TradingSession = record {
      session_id = session_id;
      session_time = times;
      trading_contexts = [];
      commit_hash = if is_some commit_hash then commit_hash else head;
    } in
    if m.is_running
    then raised already_running
    else done (record m { current_session = some session })

abbrev pub start : ℕ → Option TradingSession → SessionManager → Outcome
start now none m = raised no_session
start now (some s) m = done (record {
  current_session = some (record s { session_time = record s.session_time { start_time = now } });
  is_running = true;
})

unfoldable pub start_session : ℕ → SessionManager → Outcome
start_session now m = start now m.current_session m

-- The hash of a session, unless there is none or it is empty.
abbrev hash_of : Option TradingSession → Option String
hash_of none = none
hash_of (some s) = s.commit_hash

-- `get_current_commit_hash`
abbrev pub get_current_commit_hash : Option String → SessionManager → String
get_current_commit_hash head m =
    or_else (text_or (hash_of m.current_session) (text_or head (some "HEAD"))) "HEAD"

abbrev pub set_hash : String → Option TradingSession → SessionManager → SessionManager
set_hash commit_hash none m = m
set_hash commit_hash (some s) m = record m {
  current_session = some (record s { commit_hash = some commit_hash });
}

unfoldable pub update_commit_hash : String → SessionManager → SessionManager
update_commit_hash commit_hash m = set_hash commit_hash m.current_session m

-- The balance and the position that `init_asset_balance` is called with.
pub record Opening : Type 0 where
  pub asset_key : ℕ
  pub ticker_symbol : String
  pub exchange : String
  pub starting_balance : ℤ
  pub initial_position_qty : ℤ
  pub initial_entry_price : ℤ
  pub timestamp : ℕ

module _ (decimals : DecimalContext) where
  abbrev pub bootstrap_lot : String → Opening → PositionLot
  bootstrap_lot lot_id o = create_lot decimals lot_id (record {
    order_uuid = concat "BOOTSTRAP_" o.ticker_symbol;
    ticker_symbol = o.ticker_symbol;
    price = o.initial_entry_price;
    quantity = o.initial_position_qty;
    fee = zero_dec;
    timestamp = o.timestamp;
    winning_strategy = some "BOOTSTRAP";
    strategy_votes = none;
    strategy_attributions = none;
    slippage = zero_dec;
    slippage_per_unit = none;
    regime = none;
  })

  -- The context that `init_asset_balance` adds.
  unfoldable pub opening_context : String → Option String → Opening → TradingContext
  unfolding create_lot
  opening_context lot_id commit_hash o =
      let c = new_context o.ticker_symbol o.exchange o.starting_balance commit_hash in
      if ltb_ℤ zero_dec o.initial_position_qty
      then record c {
        position_qty = o.initial_position_qty;
        avg_entry_price = o.initial_entry_price;
        position_lots = bootstrap_lot lot_id o ∷ [];
        open_positions =
            record {
              price = o.initial_entry_price;
              quantity = o.initial_position_qty;
              timestamp = o.timestamp;
            }
            ∷ [];
      }
      else c

  abbrev pub init_in : String → Opening → Option TradingSession → SessionManager → Outcome
  init_in lot_id o none m = raised no_active_session
  init_in lot_id o (some s) m =
      if contains ℕ_discrete o.asset_key s.trading_contexts
      then done m
      else done (
          set_contexts
            (insert ℕ_discrete o.asset_key (opening_context lot_id s.commit_hash o)
              s.trading_contexts)
            s m)

  unfoldable pub init_asset_balance : String → Opening → SessionManager → Outcome
  unfolding opening_context
  init_asset_balance lot_id o m = init_in lot_id o m.current_session m

-- `_find_context`, with the key of the context.
abbrev pub find_context : String → Dict ℕ TradingContext → Option (ℕ × TradingContext)
find_context ticker_symbol [] = none
find_context ticker_symbol ((k, c) ∷ d) =
    let rest = find_context ticker_symbol d in
    ite (String-discrete c.ticker_symbol ticker_symbol) (some (k, c)) rest

abbrev pub contexts_of : Option TradingSession → Dict ℕ TradingContext
contexts_of none = []
contexts_of (some s) = s.trading_contexts

abbrev pub contexts : SessionManager → Dict ℕ TradingContext
contexts m = contexts_of m.current_session

-- `get_trading_context` and `get_trading_context_by_symbol`
abbrev pub get_trading_context : ℕ → SessionManager → Option TradingContext
get_trading_context asset_key m = lookup ℕ_discrete asset_key (contexts m)

abbrev pub get_trading_context_by_symbol : String → SessionManager → Option TradingContext
get_trading_context_by_symbol ticker_symbol m = elim (find_context ticker_symbol (contexts m)) [
  | none ↦ none
  | some found ↦ some found.1
]

-- `if event.exchange and ctx.exchange and event.exchange.upper() != ctx.exchange.upper()`
abbrev other_exchange : String → String → Bool
other_exchange ours theirs =
    not (is_empty_text theirs) && not (is_empty_text ours) && not (same_upper theirs ours)

abbrev is_quote : Option String → String → Bool
is_quote none currency = false
is_quote (some quote) currency = not (is_empty_text quote) && same_upper quote currency

-- The part of a `BalanceChangedEvent` that the manager reads.
pub record BalanceChanged : Type 0 where
  pub currency : String
  pub available : ℤ
  pub exchange : Option String

abbrev pub set_available : BalanceChanged → TradingContext → TradingContext
set_available event c =
    if not (other_exchange c.exchange (or_else event.exchange ""))
      && is_quote (after_underscore c.ticker_symbol) event.currency
    then record c { available_balance = event.available }
    else c

abbrev pub each_context :
    (TradingContext → TradingContext) → Dict ℕ TradingContext → Dict ℕ TradingContext
each_context change [] = []
each_context change ((k, c) ∷ d) = (k, change c) ∷ each_context change d

abbrev pub change_contexts :
    (Dict ℕ TradingContext → Dict ℕ TradingContext)
    → Option TradingSession
    → SessionManager
    → SessionManager
change_contexts change none m = m
change_contexts change (some s) m = set_contexts (change s.trading_contexts) s m

unfoldable pub on_balance_changed : BalanceChanged → SessionManager → SessionManager
on_balance_changed event m =
    change_contexts (each_context (set_available event)) m.current_session m

-- A change of the context under a key, if there is one.
abbrev pub change_at :
    ℕ → (TradingContext → TradingContext) → Dict ℕ TradingContext → Dict ℕ TradingContext
change_at asset_key change d = elim (lookup ℕ_discrete asset_key d) [
  | none ↦ d
  | some c ↦ insert ℕ_discrete asset_key (change c) d
]

unfoldable pub update_available_balance : ℕ → ℤ → SessionManager → SessionManager
update_available_balance asset_key available_balance m =
    change_contexts (change_at asset_key (λ c. record c { available_balance = available_balance }))
      m.current_session m

unfoldable pub close_asset_balance : ℕ → ℤ → SessionManager → SessionManager
close_asset_balance asset_key closing_balance m =
    change_contexts (change_at asset_key (λ c. record c { closing_balance = closing_balance }))
      m.current_session m

abbrev pub ended :
    ℕ → Option TradingSession → SessionManager → SessionManager × Option TradingSession
ended now none m = (m, none)
ended now (some s) m =
    if m.is_running
    then (
      record { current_session = none; is_running = false },
      some (record s { session_time = record s.session_time { end_time = now } }),
    )
    else (m, none)

unfoldable pub end_session : ℕ → SessionManager → SessionManager × Option TradingSession
end_session now m = ended now m.current_session m

abbrev pub reset_session : SessionManager → SessionManager
reset_session m = record { current_session = none; is_running = false }
