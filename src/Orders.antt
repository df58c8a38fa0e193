-- ===== src/Orders.antt =====
-- api/interfaces/order.py and api/interfaces/trade_action.py. The quantity, a text in the code, is the
-- decimal that it stands for; times, floats of seconds in the code, are nanoseconds.
use ml_crypto_trading.Prelude.{ℕ, String, Option, Bool, true, false}
use ml_crypto_trading.Prelude.Int.{ℤ}
use ml_crypto_trading.Session.Lot.{Votes, Attributions}

pub data TradeAction : Type 0 where
  buy sell : TradeAction

pub data OrderStatus : Type 0 where
  pending processing completed cancelled rejected unknown reconciliation_required : OrderStatus

pub record Order : Type 0 where
  pub uuid : String
  pub provider_name : String
  pub ticker_symbol : String
  pub price : ℤ
  pub quantity : ℤ
  pub trade_action : TradeAction
  pub created_time : ℕ
  pub commit_hash : Option String
  pub executed_time : Option ℕ
  pub status : Option OrderStatus
  pub fees : Option ℤ
  pub fill_price : Option ℤ
  pub winning_strategy : Option String
  pub strategy_votes : Option Votes
  pub strategy_attributions : Option Attributions
  pub slippage : Option ℤ
  pub decision_id : Option String
  pub regime : Option String

abbrev pub is_buy : TradeAction → Bool
is_buy buy = true
is_buy sell = false
