-- ===== src/Tests/ConsensusTests.antt =====
-- The theorems about src/trading/consensus and src/trading/strategies at concrete inputs.
use ml_crypto_trading.Prelude.{
  String, ◌==◌, if◌then◌else◌, ℕ, Bool, true, false, ◌≡◌, refl, Option, none, some, List, [], ◌∷◌,
  All,
}
use ml_crypto_trading.Prelude.Int.{pos}
use ml_crypto_trading.Prelude.Text.{String-discrete, decide_by}
use ml_crypto_trading.Orders.{buy}
use ml_crypto_trading.Consensus.Strategy.{
  TradingStrategy, Moment, Clock, is_end_of_day_bar, resolve_effective_weight,
}
use ml_crypto_trading.Consensus.Decision.{ConsensusDecision}
use ml_crypto_trading.Consensus.Manager.{
  ConsensusManager, Action-discrete, ok, eligible_strategies, registered, register_strategy,
}
use ml_crypto_trading.Consensus.Manager.Evaluation.{evaluate, collect_votes}
use ml_crypto_trading.Consensus.Manager.Names.{Change, register, unregister, run, run-IsConsistent}
use ml_crypto_trading.Consensus.Manager.Evaluation.Votes.{StandsIn, evaluate-StandsIn}

abbrev noon : Moment
noon = record { weekday = 2; hour = 12; minute = 0; second = 0; microsecond = 0 }

not_at_the_end : is_end_of_day_bar noon ≡ false
unfolding is_end_of_day_bar
not_at_the_end = refl

abbrev strategy_of : ℕ → String → ℕ → TradingStrategy
strategy_of object_id name weight = record {
  object_id = object_id;
  name = name;
  action = buy;
  ticker_symbols = some ("BTC_USD" ∷ []);
  weight = pos weight;
  schedule = none;
  enabled = true;
}

abbrev trend : TradingStrategy
trend = strategy_of 1 "trend" 3

abbrev grid : TradingStrategy
grid = strategy_of 2 "grid" 1

abbrev no_strategies : ConsensusManager
no_strategies = record {
  strategies = [];
  asset_factors = ("BTC_USD", record { buy_factor = 1500; sell_factor = 1500 }) ∷ [];
}

abbrev changes : List Change
changes = register trend ∷ register grid ∷ register trend ∷ unregister grid ∷ []

abbrev two_strategies : ConsensusManager
two_strategies = run (register trend ∷ register grid ∷ []) no_strategies

abbrev clock : Clock
clock = record { at_utc = λ t. noon; at_zone = λ zone t. noon }

-- The trend is for the trade, the grid is not.
abbrev votes_for : TradingStrategy → Option Bool
votes_for s = if s.object_id == 1 then some true else some false

abbrev decision : ConsensusDecision
decision = record {
  trade_action = buy;
  ticker_symbol = "BTC_USD";
  votes = ("trend", true) ∷ ("grid", false) ∷ [];
  weights = ("trend", 3) ∷ ("grid", 1) ∷ [];
  factor = 1500;
}

decides : evaluate clock 0 votes_for buy "BTC_USD" two_strategies ≡ ok decision
unfolding evaluate collect_votes register_strategy resolve_effective_weight Action-discrete
    String-discrete decide_by
decides = refl

evaluate-StandsIn_example :
    All
      (StandsIn clock 0 votes_for decision)
      (eligible_strategies (registered buy two_strategies) "BTC_USD")
evaluate-StandsIn_example =
    evaluate-StandsIn clock 0 votes_for buy "BTC_USD" two_strategies decision
      (run-IsConsistent (register trend ∷ register grid ∷ []) no_strategies tt) decides
