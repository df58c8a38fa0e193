-- ===== src/Portfolio/Manager.antt =====
-- src/trading/protection/portfolio_risk_manager.py, `class PortfolioRiskManager`, with the parts of
-- an order and of an asset that it reads. The lock makes each method one step. The handlers get
-- their events from the event bus, whose subscriptions are not modelled; `available` of a balance
-- event is never `None`, so that the code's fallback to `total` is dead.
pub mod Trading
pub mod Events
use ml_crypto_trading.Prelude.{
  ℕ, suc, String, Bool, not, ◌||◌, Option, [], ◌∷◌, or_else, if◌then◌else◌,
}
use ml_crypto_trading.Prelude.Int.{ℤ, ◌+ℤ◌, ltb_ℤ}
use ml_crypto_trading.Prelude.Dict.{Dict, lookup, contains, insert}
use ml_crypto_trading.Prelude.Text.{String-discrete}
use ml_crypto_trading.Prelude.Decimal.{DecimalContext, zero_dec}
use ml_crypto_trading.Portfolio.Book.{
  QuotePortfolio, empty, reserve_cash, release_cash, reconcile_orders, update_cash,
  update_asset_position, update_asset_mark_price,
}
use ml_crypto_trading.Portfolio.Config.{PortfolioConfig, AssetPortfolioOverride}

pub record Asset : Type 0 where
  pub exchange : String
  pub quote_ticker_symbol : String
  pub ticker_symbol : String
  pub portfolio : Option AssetPortfolioOverride

-- The key of a portfolio: the exchange and the quote currency.
abbrev pub Key : Type 0
Key = String × String

unfoldable pub Key-discrete : Discrete Key
Key-discrete = hlevel String-discrete

pub record PortfolioRiskManager : Type 0 where
  pub portfolios : Dict Key QuotePortfolio
  pub portfolio_config : PortfolioConfig
  pub explicit_drawdown : Option ℤ
  pub explicit_concentration : Option ℤ

-- The portfolio of a key, a new one if there is none.
unfoldable pub portfolio_at : Key → Dict Key QuotePortfolio → QuotePortfolio
portfolio_at k d = or_else (lookup Key-discrete k d) (empty k.0 k.1)

-- `register_asset`
unfoldable pub register_asset : Asset → PortfolioRiskManager → PortfolioRiskManager
register_asset asset m =
    let k : Key = (asset.exchange, asset.quote_ticker_symbol) in
    if contains Key-discrete k m.portfolios
    then m
    else record m { portfolios = insert Key-discrete k (empty k.0 k.1) m.portfolios }

-- `get_portfolio`, and a change of the portfolio that it returns.
unfoldable pub with_portfolio :
    Key → (QuotePortfolio → QuotePortfolio) → PortfolioRiskManager → PortfolioRiskManager
unfolding portfolio_at
with_portfolio k change m = record m {
  portfolios = insert Key-discrete k (change (portfolio_at k m.portfolios)) m.portfolios;
}

-- `update_config`
abbrev pub update_config : PortfolioConfig → PortfolioRiskManager → PortfolioRiskManager
update_config portfolio_config m = record m { portfolio_config = portfolio_config }

-- The loop of `release_order_cash_by_uuid`: it ends at the first portfolio that released something.
unfoldable pub release_by_uuid : String → Dict Key QuotePortfolio → Dict Key QuotePortfolio × ℤ
release_by_uuid uuid [] = ([], zero_dec)
release_by_uuid uuid ((k, p) ∷ d) =
    let (p', released) = release_cash uuid p in
    let (d', later) = release_by_uuid uuid d in
    if ltb_ℤ zero_dec released then ((k, p') ∷ d, released) else ((k, p') ∷ d', later)

unfoldable pub release_order_cash_by_uuid : String → PortfolioRiskManager → PortfolioRiskManager × ℤ
unfolding release_by_uuid
release_order_cash_by_uuid uuid m =
    let (d, released) = release_by_uuid uuid m.portfolios in (record m { portfolios = d }, released)

-- The loop of `reconcile_open_orders`, with the total so far.
unfoldable pub reconcile_each :
    (String → Bool) → ℤ → Dict Key QuotePortfolio → Dict Key QuotePortfolio × ℤ
reconcile_each is_active released [] = ([], released)
reconcile_each is_active released ((k, p) ∷ d) =
    let (p', amount) = reconcile_orders is_active p in
    let (d', total) = reconcile_each is_active (released +ℤ amount) d in ((k, p') ∷ d', total)

unfoldable pub reconcile_open_orders :
    (String → Bool) → PortfolioRiskManager → PortfolioRiskManager × ℤ
unfolding reconcile_each
reconcile_open_orders is_active m =
    let (d, total) = reconcile_each is_active zero_dec m.portfolios in
    (record m { portfolios = d }, total)

-- A change of every portfolio, for the loops of `_on_market_data` and `_on_balance_changed`.
abbrev pub each :
    (Key → QuotePortfolio → QuotePortfolio) → Dict Key QuotePortfolio → Dict Key QuotePortfolio
each change [] = []
each change ((k, p) ∷ d) = (k, change k p) ∷ each change d

-- `sum(1 for qty in portfolio.asset_positions.values() if qty > Decimal("0"))`
abbrev pub count_open : Dict String ℤ → ℕ
count_open [] = 0
count_open ((ticker, qty) ∷ d) =
    let rest = count_open d in if ltb_ℤ zero_dec qty then suc rest else rest

module _ (ctx : DecimalContext) where
  -- `if portfolio.total_cash != target: portfolio.update_cash(target)`
  unfoldable pub set_cash : ℤ → QuotePortfolio → QuotePortfolio
  set_cash target p =
      if not (ltb_ℤ p.total_cash target || ltb_ℤ target p.total_cash)
      then p
      else update_cash ctx target p

  -- `update_cash_balance`, `update_market_data` and `update_position`
  abbrev pub update_cash_balance : String → String → ℤ → PortfolioRiskManager → PortfolioRiskManager
  update_cash_balance exchange quote_currency balance =
      with_portfolio (exchange, quote_currency) (set_cash balance)

  abbrev pub update_market_data : Asset → ℤ → PortfolioRiskManager → PortfolioRiskManager
  update_market_data asset close_price =
      with_portfolio (asset.exchange, asset.quote_ticker_symbol)
        (update_asset_mark_price ctx asset.ticker_symbol close_price)

  abbrev pub update_position : Asset → ℤ → PortfolioRiskManager → PortfolioRiskManager
  update_position asset position_qty =
      with_portfolio (asset.exchange, asset.quote_ticker_symbol)
        (update_asset_position ctx asset.ticker_symbol position_qty)

-- `reserve_order_cash`
abbrev pub reserve_order_cash :
    Asset → String → ℤ → PortfolioRiskManager → PortfolioRiskManager × Bool
reserve_order_cash asset order_uuid amount m =
    let k : Key = (asset.exchange, asset.quote_ticker_symbol) in
    let (p, granted) = reserve_cash order_uuid amount (portfolio_at k m.portfolios) in
    (record m { portfolios = insert Key-discrete k p m.portfolios }, granted)

-- `release_order_cash`
abbrev pub release_order_cash :
    String → String → String → PortfolioRiskManager → PortfolioRiskManager × ℤ
release_order_cash exchange quote_currency order_uuid m =
    let k : Key = (exchange, quote_currency) in
    let (p, amount) = release_cash order_uuid (portfolio_at k m.portfolios) in
    (record m { portfolios = insert Key-discrete k p m.portfolios }, amount)
