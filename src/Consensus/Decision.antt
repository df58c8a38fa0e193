-- ===== src/Consensus/Decision.antt =====
-- src/trading/consensus/consensus_decision.py and src/trading/consensus/consensus_factor.py: what a
-- decision and a factor hold. Weights are counted in a common unit and factors in thousandths.
use ml_crypto_trading.Prelude.{ℕ, String, Bool}
use ml_crypto_trading.Prelude.Dict.{Dict}
use ml_crypto_trading.Orders.{TradeAction}

pub record ConsensusFactor : Type 0 where
  pub buy_factor : ℕ
  pub sell_factor : ℕ

pub record ConsensusDecision : Type 0 where
  pub trade_action : TradeAction
  pub ticker_symbol : String
  pub votes : Dict String Bool
  pub weights : Dict String ℕ
  pub factor : ℕ
