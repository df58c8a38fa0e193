-- ===== src/Portfolio/Guard.antt =====
-- src/trading/protection/quote_portfolio_guard.py. A violation carries the numbers that its message
-- prints; `reason` is the list of violations joined, and is not kept apart.
pub mod Limits
use ml_crypto_trading.Prelude.{
  ℕ, ◌+◌, String, Bool, true, false, Option, none, some, List, [], ◌∷◌, ◌++◌, ltb, if◌then◌else◌,
}
use ml_crypto_trading.Prelude.Int.{ℤ, ◌+ℤ◌, ◌-ℤ◌, ltb_ℤ, leb_ℤ}
use ml_crypto_trading.Prelude.Decimal.{DecimalContext, zero_dec}
use ml_crypto_trading.Portfolio.Config.{
  MarketRegime, illiquid, EffectivePortfolioConfig, effective_max_total, effective_max_per_asset,
}

pub record PortfolioRiskMetrics : Type 0 where
  pub total_equity : ℤ
  pub total_cash : ℤ
  pub reserved_cash : ℤ
  pub available_cash : ℤ
  pub invested_notional : ℤ
  pub total_exposure_pct : ℤ
  pub asset_notional : ℤ
  pub asset_concentration_pct : ℤ
  pub peak_equity : ℤ
  pub drawdown_pct : ℤ
  pub daily_loss_pct : ℤ
  pub open_position_count : ℕ

pub data Violation : Type 0 where
  insufficient_cash : ℤ → ℤ → Violation
  reserve_breached : ℤ → ℤ → Violation
  quote_exposure_exceeded : ℤ → ℤ → Violation
  concentration_exceeded : String → ℤ → ℤ → Violation
  total_exposure_exceeded : ℤ → ℤ → Violation
  drawdown_exceeded : ℤ → ℤ → Violation
  position_count_exceeded : ℕ → ℕ → Violation
  illiquid_market : Violation

pub record GuardDecision : Type 0 where
  pub allowed : Bool
  pub violations : List Violation

abbrev pub is_illiquid : MarketRegime → Bool
is_illiquid illiquid = true
is_illiquid _ = false

-- `-abs(d)`
abbrev pub neg_abs : ℤ → ℤ
neg_abs d = if ltb_ℤ zero_dec d then zero_dec -ℤ d else d

-- `[v]` if the test holds.
abbrev pub flag : Bool → Violation → List Violation
flag b v = if b then v ∷ [] else []

-- A limit on a ratio to the equity, where the equity is positive and the limit is set.
abbrev pub over_limit : DecimalContext → ℤ → ℤ → Option ℤ → (ℤ → ℤ → Violation) → List Violation
over_limit ctx total_equity amount none v = []
over_limit ctx total_equity amount (some limit) v =
    if ltb_ℤ zero_dec total_equity
    then flag (ltb_ℤ limit (ctx.div amount total_equity)) (v (ctx.div amount total_equity) limit)
    else []

abbrev pub drawdown_check : ℤ → Option ℤ → List Violation
drawdown_check drawdown none = []
drawdown_check drawdown (some max_drawdown) =
    flag (ltb_ℤ drawdown (neg_abs max_drawdown)) (drawdown_exceeded drawdown (neg_abs max_drawdown))

-- `open_position_count + (1 if is_new_position else 0)`
abbrev pub projected_count : PortfolioRiskMetrics → ℕ
projected_count risk =
    if leb_ℤ risk.asset_notional zero_dec
    then risk.open_position_count + 1
    else risk.open_position_count

abbrev pub count_check : ℕ → Option ℕ → List Violation
count_check count none = []
count_check count (some limit) = flag (ltb limit count) (position_count_exceeded count limit)

-- `effective_max_asset` and `effective_max_total`
abbrev pub max_asset : DecimalContext → EffectivePortfolioConfig → Option ℤ
max_asset ctx config =
    if config.regime.enabled
    then effective_max_per_asset ctx config
    else config.exposure.max_per_asset

abbrev pub max_total : DecimalContext → EffectivePortfolioConfig → Option ℤ
max_total ctx config =
    if config.regime.enabled then effective_max_total ctx config else config.exposure.max_total

abbrev pub decide_on : List Violation → GuardDecision
decide_on [] = record { allowed = true; violations = [] }
decide_on (v ∷ vs) = record { allowed = false; violations = v ∷ vs }

module _ (ctx : DecimalContext) (asset_symbol : String) where
  -- The eight checks, in order.
  unfoldable pub check_all :
      ℤ → PortfolioRiskMetrics → MarketRegime → EffectivePortfolioConfig → List Violation
  check_all cost risk regime config =
      flag (ltb_ℤ risk.available_cash cost) (insufficient_cash cost risk.available_cash)
      ++ (flag
            (ltb_ℤ (risk.available_cash -ℤ cost)
              (ctx.mul risk.total_equity config.guard.min_quote_reserve))
            (reserve_breached (risk.available_cash -ℤ cost)
              (ctx.mul risk.total_equity config.guard.min_quote_reserve))
          ++ (over_limit ctx risk.total_equity (risk.invested_notional +ℤ cost)
                (some config.guard.max_quote_exposure) quote_exposure_exceeded
              ++ (over_limit ctx risk.total_equity (risk.asset_notional +ℤ cost)
                    (max_asset ctx config) (concentration_exceeded asset_symbol)
                  ++ (over_limit ctx risk.total_equity (risk.invested_notional +ℤ cost)
                        (max_total ctx config) total_exposure_exceeded
                      ++ (drawdown_check risk.drawdown_pct config.guard.max_drawdown
                          ++ (count_check (projected_count risk) config.guard.max_position_count
                              ++ (if config.regime.enabled
                                  then flag (is_illiquid regime) illiquid_market
                                  else [])))))))

  -- `QuotePortfolioGuard.evaluate`
  unfoldable pub evaluate :
      ℤ → PortfolioRiskMetrics → MarketRegime → EffectivePortfolioConfig → GuardDecision
  evaluate cost risk regime config =
      if config.guard.enabled then decide_on (check_all cost risk regime config) else decide_on []
