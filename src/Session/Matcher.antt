-- ===== src/Session/Matcher.antt =====
-- src/trading/session/fifo_trade_matcher.py. The loop takes fuel: one round for each lot and one
-- more. `match_lots` changes the lots in place; here it returns them.
pub mod Fifo
use ml_crypto_trading.Prelude.{
  ℕ, zero, suc, String, Option, none, some, List, [], ◌∷◌, ◌++◌, length, if◌then◌else◌,
}
use ml_crypto_trading.Prelude.Int.{ℤ, ◌+ℤ◌, ◌-ℤ◌, min_ℤ, leb_ℤ}
use ml_crypto_trading.Prelude.Decimal.{DecimalContext, zero_dec}
use ml_crypto_trading.Session.Lot.{Votes, Attributions, PositionLot, Trade, per_unit, create_trade}

-- The arguments of `match_lots` behind the lots.
pub record Exit : Type 0 where
  pub ticker_symbol : String
  pub exit_order_uuid : String
  pub exit_price : ℤ
  pub exit_quantity : ℤ
  pub exit_fee : ℤ
  pub exit_timestamp : ℕ
  pub commit_hash : Option String
  pub winning_strategy : Option String
  pub strategy_votes : Option Votes
  pub strategy_attributions : Option Attributions
  pub exit_slippage : ℤ
  pub exit_regime : Option String

-- Python's `or` on an optional text and on an optional dict: the empty one counts as absent.
abbrev pub text_or : Option String → Option String → Option String
text_or none b = b
text_or (some String.[]) b = b
text_or (some s) b = some s

abbrev pub votes_or : Option Votes → Option Votes → Option Votes
votes_or none b = b
votes_or (some []) b = b
votes_or (some v) b = some v

pub record Matched : Type 0 where
  pub lots : List PositionLot
  pub completed_trades : List Trade
  pub sell_remaining : ℤ

module _ (ctx : DecimalContext) (new_id : ℕ → String) (x : Exit) where
  open ctx use {mul}

  -- The trade that one round records; `n` counts the trades before it.
  unfoldable pub trade_of : ℕ → PositionLot → ℤ → Trade
  unfolding create_trade
  trade_of n lot matched_qty = create_trade ctx (new_id n) (record {
    ticker_symbol = x.ticker_symbol;
    entry_order_uuid = lot.order_uuid;
    exit_order_uuid = x.exit_order_uuid;
    entry_price = lot.price;
    exit_price = x.exit_price;
    quantity = matched_qty;
    entry_fee = mul lot.fee_per_unit matched_qty;
    exit_fee = mul (per_unit ctx x.exit_fee x.exit_quantity) matched_qty;
    entry_timestamp = lot.timestamp;
    exit_timestamp = x.exit_timestamp;
    slippage =
        mul lot.slippage_per_unit matched_qty
        +ℤ mul (per_unit ctx x.exit_slippage x.exit_quantity) matched_qty;
    commit_hash = x.commit_hash;
    winning_strategy = text_or lot.winning_strategy x.winning_strategy;
    strategy_votes = votes_or lot.strategy_votes x.strategy_votes;
    entry_strategy_attributions = lot.strategy_attributions;
    exit_strategy_attributions = x.strategy_attributions;
    exit_winning_strategy = x.winning_strategy;
    exit_strategy_votes = x.strategy_votes;
    entry_regime = lot.regime;
    exit_regime = x.exit_regime;
  })

  -- `lot.remaining_quantity -= matched_qty`, and the lots after `lots.pop(0)` if it is used up.
  abbrev pub take_from : PositionLot → ℤ → List PositionLot → List PositionLot
  take_from lot matched_qty lots =
      if leb_ℤ (lot.remaining_quantity -ℤ matched_qty) zero_dec
      then lots
      else record lot { remaining_quantity = lot.remaining_quantity -ℤ matched_qty } ∷ lots

  -- `while sell_remaining > Decimal(0) and lots`
  unfoldable pub match_loop : ℕ → List PositionLot → ℤ → List Trade → Option Matched
  match_loop zero lots sell_remaining completed = none
  match_loop (suc fuel) [] sell_remaining completed =
      some (record { lots = []; completed_trades = completed; sell_remaining = sell_remaining })
  match_loop (suc fuel) (lot ∷ lots) sell_remaining completed =
      let matched_qty = min_ℤ sell_remaining lot.remaining_quantity in
      let rest =
        match_loop fuel (take_from lot matched_qty lots) (sell_remaining -ℤ matched_qty)
          (completed ++ trade_of (length completed) lot matched_qty ∷ []) in
      if leb_ℤ sell_remaining zero_dec
      then some (record {
        lots = lot ∷ lots;
        completed_trades = completed;
        sell_remaining = sell_remaining;
      })
      else rest

  -- `FifoTradeMatcher.match_lots`
  unfoldable pub match_lots : List PositionLot → Option Matched
  unfolding match_loop
  match_lots lots = match_loop (suc (length lots)) lots x.exit_quantity []
