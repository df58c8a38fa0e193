-- ===== src/Consensus/Manager/Evaluation.antt =====
-- src/trading/consensus/consensus_manager.py: `evaluate` and `_collect_strategy_votes`, without the
-- event that is published about an evaluation. A strategy's vote is an argument: a Boolean, or none when
-- the strategy raises an exception, which nothing here catches. The market data is read for its
-- timestamp only, which is an argument.
pub mod Votes
use ml_crypto_trading.Prelude.{
  ℕ, String, Bool, false, Option, none, some, List, [], ◌∷◌, ltb, if◌then◌else◌,
}
use ml_crypto_trading.Prelude.Text.{String-discrete}
use ml_crypto_trading.Prelude.Dict.{Dict, lookup, insert}
use ml_crypto_trading.Orders.{TradeAction, buy, sell}
use ml_crypto_trading.Consensus.Strategy.{TradingStrategy, Clock, resolve_effective_weight}
use ml_crypto_trading.Consensus.Decision.{ConsensusDecision, ConsensusFactor}
use ml_crypto_trading.Consensus.Manager.{
  ConsensusManager, Result, ok, raised, no_factor, strategy_failed, registered, eligible_strategies,
}

abbrev pub Ballot : Type 0
Ballot = Dict String Bool × Dict String ℕ

module _ (weight_at : TradingStrategy → ℕ) (get_quorum : TradingStrategy → Option Bool) where
  -- The vote of a strategy, which is asked only when it has a weight.
  abbrev pub vote_of : TradingStrategy → Option Bool
  vote_of strategy = if ltb 0 (weight_at strategy) then get_quorum strategy else some false

  abbrev pub cast : TradingStrategy → Option Bool → Ballot → Option Ballot
  cast strategy none (votes, weights) = none
  cast strategy (some vote) (votes, weights) = some (
    insert String-discrete strategy.name vote votes,
    insert String-discrete strategy.name (weight_at strategy) weights,
  )

  -- `_collect_strategy_votes`, behind the votes that are there.
  unfoldable pub collect_votes : List TradingStrategy → Ballot → Option Ballot
  collect_votes [] ballot = some ballot
  collect_votes (strategy ∷ strategies) ballot =
      if strategy.enabled
      then elim (cast strategy (vote_of strategy) ballot) [
        | none ↦ none
        | some ballot' ↦ collect_votes strategies ballot'
      ]
      else collect_votes strategies ballot

-- The decision without a strategy.
abbrev pub no_decision : TradeAction → String → ConsensusDecision
no_decision trade_action ticker_symbol = record {
  trade_action = trade_action;
  ticker_symbol = ticker_symbol;
  votes = [];
  weights = [];
  factor = 0;
}

abbrev pub factor_of : TradeAction → ConsensusFactor → ℕ
factor_of buy f = f.buy_factor
factor_of sell f = f.sell_factor

abbrev pub decided : TradeAction → String → ℕ → Option Ballot → Result ConsensusDecision
decided trade_action ticker_symbol factor none = raised strategy_failed
decided trade_action ticker_symbol factor (some (votes, weights)) = ok (record {
  trade_action = trade_action;
  ticker_symbol = ticker_symbol;
  votes = votes;
  weights = weights;
  factor = factor;
})

module _ (clock : Clock) (timestamp : ℕ) (get_quorum : TradingStrategy → Option Bool) where
  -- The votes on a ticker symbol, and the case where there is a strategy for it.
  abbrev pub ballot_of : List TradingStrategy → Option Ballot
  ballot_of strategies =
      collect_votes (λ s. resolve_effective_weight clock s timestamp) get_quorum strategies ([], [])

  abbrev pub decide :
      TradeAction
      → String
      → Option ConsensusFactor
      → List TradingStrategy
      → Result ConsensusDecision
  decide trade_action ticker_symbol factor [] = ok (no_decision trade_action ticker_symbol)
  decide trade_action ticker_symbol none (s ∷ strategies) = raised no_factor
  decide trade_action ticker_symbol (some f) (s ∷ strategies) =
      decided trade_action ticker_symbol (factor_of trade_action f) (ballot_of (s ∷ strategies))

  -- `evaluate`
  unfoldable pub evaluate : TradeAction → String → ConsensusManager → Result ConsensusDecision
  unfolding collect_votes
  evaluate trade_action ticker_symbol m =
      decide trade_action ticker_symbol (lookup String-discrete ticker_symbol m.asset_factors)
        (eligible_strategies (registered trade_action m) ticker_symbol)
