-- ===== src/Consensus/Manager.antt =====
-- src/trading/consensus/consensus_manager.py: the factors of the assets and the strategies of the
-- actions. One strategy is another exactly if it is the same object. A set of ticker symbols is a list,
-- and the symbols of an error keep the order of the list.
pub mod Names
pub mod Evaluation
use ml_crypto_trading.Prelude.{
  String, Bool, true, false, ◌&&◌, Option, none, some, List, [], ◌∷◌, ◌++◌, any, select, holds,
  or_else, ◌==◌, if◌then◌else◌, ite,
}
use ml_crypto_trading.Prelude.Text.{String-discrete}
use ml_crypto_trading.Prelude.Dict.{Dict, keys, lookup, insert, erase, contains}
use ml_crypto_trading.Orders.{TradeAction}
use ml_crypto_trading.Consensus.Strategy.{TradingStrategy}
use ml_crypto_trading.Consensus.Decision.{ConsensusFactor}

unfoldable pub Action-discrete : Discrete TradeAction
Action-discrete = hlevel

pub record ConsensusManager : Type 0 where
  pub strategies : Dict TradeAction (List TradingStrategy)
  pub asset_factors : Dict String ConsensusFactor

pub data ConsensusError : Type 0 where
  no_ticker_symbols : ConsensusError
  already_unrestricted : ConsensusError
  overlapping : List String → ConsensusError
  no_factor : ConsensusError
  strategy_failed : ConsensusError

pub data Result {ℓ} (A : Type ℓ) : Type ℓ where
  ok : A → Result A
  raised : ConsensusError → Result A

-- The part of an asset that `set_factors` reads.
pub record FactorOf : Type 0 where
  pub ticker_symbol : String
  pub consensus : Option ConsensusFactor

abbrev pub factors_of : List FactorOf → Dict String ConsensusFactor → Dict String ConsensusFactor
factors_of [] d = d
factors_of (a ∷ assets) d =
    factors_of assets
      (elim a.consensus [ none ↦ d | some c ↦ insert String-discrete a.ticker_symbol c d ])

abbrev pub set_factors : List FactorOf → ConsensusManager → ConsensusManager
set_factors assets m = record m { asset_factors = factors_of assets [] }

-- `ticker_symbol in tickers`
abbrev pub is_member : String → List String → Bool
is_member s tickers = any (λ t. holds (String-discrete t s)) tickers

-- `other_tickers & new_tickers`
abbrev pub overlap : List String → List String → List String
overlap others new = select (λ t. is_member t new) others

abbrev pub clash_of : List String → Option ConsensusError
clash_of [] = none
clash_of (t ∷ ts) = some (overlapping (t ∷ ts))

-- The error for two strategies of one name, by their tickers.
abbrev pub clash : Option (List String) → Option (List String) → Option ConsensusError
clash none new = some already_unrestricted
clash (some others) none = some already_unrestricted
clash (some others) (some new) = clash_of (overlap others new)

abbrev pub conflict : TradingStrategy → TradingStrategy → Option ConsensusError
conflict strategy other =
    ite (String-discrete other.name strategy.name)
      (clash other.ticker_symbols strategy.ticker_symbols) none

-- The loop over the strategies that are registered for the action.
abbrev pub first_conflict : TradingStrategy → List TradingStrategy → Option ConsensusError
first_conflict strategy [] = none
first_conflict strategy (other ∷ existing) =
    let rest = first_conflict strategy existing in
    elim (conflict strategy other) [ none ↦ rest | some e ↦ some e ]

abbrev pub is_unbound : Option (List String) → Bool
is_unbound (some []) = true
is_unbound _ = false

abbrev pub registered : TradeAction → ConsensusManager → List TradingStrategy
registered action m = or_else (lookup Action-discrete action m.strategies) []

abbrev pub add_strategy :
    Option ConsensusError → TradingStrategy → ConsensusManager → Result ConsensusManager
add_strategy (some e) strategy m = raised e
add_strategy none strategy m = ok (record m {
  strategies =
      insert Action-discrete strategy.action (registered strategy.action m ++ strategy ∷ [])
        m.strategies;
})

-- `register_strategy`
unfoldable pub register_strategy : TradingStrategy → ConsensusManager → Result ConsensusManager
register_strategy strategy m =
    if is_unbound strategy.ticker_symbols
    then raised no_ticker_symbols
    else add_strategy (first_conflict strategy (registered strategy.action m)) strategy m

-- `list.remove`, of an object; a list without it stays.
abbrev pub remove : TradingStrategy → List TradingStrategy → List TradingStrategy
remove strategy [] = []
remove strategy (other ∷ existing) =
    let rest = remove strategy existing in
    if other.object_id == strategy.object_id then existing else other ∷ rest

abbrev pub put_back :
    TradeAction
    → List TradingStrategy
    → Dict TradeAction (List TradingStrategy)
    → Dict TradeAction (List TradingStrategy)
put_back action [] d = erase Action-discrete action d
put_back action (s ∷ rest) d = insert Action-discrete action (s ∷ rest) d

abbrev pub has_object : TradingStrategy → List TradingStrategy → Bool
has_object strategy existing = any (λ s. s.object_id == strategy.object_id) existing

-- The body of the loop over the actions.
abbrev pub remove_at :
    TradingStrategy
    → TradeAction
    → Dict TradeAction (List TradingStrategy)
    → Dict TradeAction (List TradingStrategy)
remove_at strategy action d =
    let existing = or_else (lookup Action-discrete action d) [] in
    if has_object strategy existing then put_back action (remove strategy existing) d else d

abbrev pub remove_all :
    TradingStrategy
    → List TradeAction
    → Dict TradeAction (List TradingStrategy)
    → Dict TradeAction (List TradingStrategy)
remove_all strategy [] d = d
remove_all strategy (action ∷ actions) d = remove_all strategy actions (remove_at strategy action d)

-- `unregister_strategy`
unfoldable pub unregister_strategy : TradingStrategy → ConsensusManager → ConsensusManager
unregister_strategy strategy m = record m {
  strategies =
      remove_all strategy
        (if contains Action-discrete strategy.action m.strategies
          then strategy.action ∷ []
          else keys m.strategies)
        m.strategies;
}

abbrev pub admits : Option (List String) → String → Bool
admits none ticker_symbol = true
admits (some tickers) ticker_symbol = is_member ticker_symbol tickers

abbrev pub is_eligible : String → TradingStrategy → Bool
is_eligible ticker_symbol strategy =
    strategy.enabled && admits strategy.ticker_symbols ticker_symbol

-- `_eligible_strategies`
abbrev pub eligible_strategies : List TradingStrategy → String → List TradingStrategy
eligible_strategies strategies ticker_symbol = select (is_eligible ticker_symbol) strategies
