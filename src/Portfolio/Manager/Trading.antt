-- ===== src/Portfolio/Manager/Trading.antt =====
-- src/trading/protection/portfolio_risk_manager.py, `get_risk_metrics` and `can_trade`. The reason
-- of a refusal is the guard's list of violations.
use ml_crypto_trading.Prelude.{
  String, true, false, Bool-cases, inl, inr, Option, none, some, [], or_else, if◌then◌else◌, ◌≡◌,
  refl, arith,
}
use ml_crypto_trading.Prelude.Int.{ℤ, ◌≤ℤ◌, ltb_ℤ, leb_ℤ}
use ml_crypto_trading.Prelude.Dict.{Dict, insert, lookup-insert_self}
use ml_crypto_trading.Prelude.Decimal.{DecimalContext, zero_dec}
use ml_crypto_trading.Portfolio.Book.{
  QuotePortfolio, available_cash, reserve_cash, get_total_holdings_notional, get_total_equity,
  get_asset_notional, get_drawdown, update_asset_mark_price,
}
use ml_crypto_trading.Portfolio.Config.{
  MarketRegime, unknown, EffectivePortfolioConfig, prefer, resolve,
}
use ml_crypto_trading.Portfolio.Guard.{PortfolioRiskMetrics, GuardDecision, decide_on, evaluate}
use ml_crypto_trading.Portfolio.Guard.Limits.{evaluate-IsWithin}
use ml_crypto_trading.Portfolio.Manager.{
  Asset, Key, Key-discrete, PortfolioRiskManager, portfolio_at, count_open, reserve_order_cash,
}
use ml_crypto_trading.Orders.{TradeAction, buy, sell}

-- The configuration with the limits that were given to the manager itself.
unfoldable pub with_explicit :
    PortfolioRiskManager → EffectivePortfolioConfig → EffectivePortfolioConfig
with_explicit m c = record c {
  exposure = record c.exposure {
    max_per_asset = prefer m.explicit_concentration c.exposure.max_per_asset;
  };
  guard = record c.guard { max_drawdown = prefer m.explicit_drawdown c.guard.max_drawdown };
}

module _ (ctx : DecimalContext) where
  abbrev share : ℤ → ℤ → ℤ
  share part total_equity =
      if ltb_ℤ zero_dec total_equity then ctx.div part total_equity else zero_dec

  -- `get_risk_metrics`, of the asset's portfolio.
  unfoldable pub risk_metrics : String → QuotePortfolio → PortfolioRiskMetrics
  risk_metrics ticker p =
      let total_equity = get_total_equity ctx p in
      let invested_notional = get_total_holdings_notional ctx p in
      let asset_notional = get_asset_notional ctx ticker p in
      record {
        total_equity = total_equity;
        total_cash = p.total_cash;
        reserved_cash = p.reserved_cash;
        available_cash = available_cash p;
        invested_notional = invested_notional;
        total_exposure_pct = share invested_notional total_equity;
        asset_notional = asset_notional;
        asset_concentration_pct = share asset_notional total_equity;
        peak_equity = p.peak_equity;
        drawdown_pct = get_drawdown ctx p;
        daily_loss_pct = zero_dec;
        open_position_count = count_open p.asset_positions;
      }

  -- `if market_data is not None: portfolio.update_asset_mark_price(...)`
  abbrev pub marked_at : String → Option ℤ → QuotePortfolio → QuotePortfolio
  marked_at ticker none p = p
  marked_at ticker (some close_price) p = update_asset_mark_price ctx ticker close_price p

  -- `can_trade`
  unfoldable pub can_trade :
      Asset
      → TradeAction
      → ℤ
      → Option ℤ
      → Option MarketRegime
      → PortfolioRiskManager
      → PortfolioRiskManager × GuardDecision
  unfolding with_explicit risk_metrics portfolio_at
  can_trade asset sell cost market_data regime m = (m, decide_on [])
  can_trade asset buy cost market_data regime m =
      let k : Key = (asset.exchange, asset.quote_ticker_symbol) in
      let p = marked_at asset.ticker_symbol market_data (portfolio_at k m.portfolios) in
      let current_regime = or_else regime unknown in
      let config =
        with_explicit m (resolve ctx m.portfolio_config asset.portfolio (some current_regime)) in
      (
        record m { portfolios = insert Key-discrete k p m.portfolios },
        evaluate ctx asset.ticker_symbol cost (risk_metrics asset.ticker_symbol p) current_regime
            config,
      )

reserve_cash_granted :
    (uuid : String) (cost : ℤ) (p : QuotePortfolio)
    → cost ≤ℤ available_cash p
    → (reserve_cash uuid cost p).1 ≡ true
unfolding reserve_cash
reserve_cash_granted uuid cost p h =
    let room : ltb_ℤ (available_cash p) cost ≡ false = ground arith in
    elim (Bool-cases (leb_ℤ cost zero_dec)) [
      | inl small ↦ rw small refl
      | inr positive ↦ rw (positive, room) refl
    ]

portfolio_at-insert :
    (k : Key) (p : QuotePortfolio) (d : Dict Key QuotePortfolio)
    → portfolio_at k (insert Key-discrete k p d) ≡ p
unfolding portfolio_at
portfolio_at-insert k p d = rw (lookup-insert_self Key-discrete k p d) refl

module _ (ctx : DecimalContext) (asset : Asset) (cost : ℤ) (market_data : Option ℤ)
    (regime : Option MarketRegime) (m : PortfolioRiskManager) where
  abbrev traded : PortfolioRiskManager × GuardDecision
  traded = can_trade ctx asset buy cost market_data regime m

  -- A buy that `can_trade` allows while the asset's guard is enabled can be reserved in the state
  -- that `can_trade` leaves, whatever its uuid.
  pub reserve_order_cash-can_trade :
      (order_uuid : String)
      → (resolve ctx m.portfolio_config asset.portfolio
          (some (or_else regime unknown))).guard.enabled
        ≡ true
      → traded.1.allowed ≡ true
      → (reserve_order_cash asset order_uuid cost traded.0).1 ≡ true
  unfolding can_trade with_explicit risk_metrics
  reserve_order_cash-can_trade order_uuid on allowed =
      let k : Key = (asset.exchange, asset.quote_ticker_symbol) in
      let p = marked_at ctx asset.ticker_symbol market_data (portfolio_at k m.portfolios) in
      let within =
        (evaluate-IsWithin ctx asset.ticker_symbol cost (risk_metrics ctx asset.ticker_symbol p)
            (or_else regime unknown)
            (with_explicit m
              (resolve ctx m.portfolio_config asset.portfolio (some (or_else regime unknown))))
            on).0
          allowed in
      rw (portfolio_at-insert k p m.portfolios) (reserve_cash_granted order_uuid cost p within.cash)
