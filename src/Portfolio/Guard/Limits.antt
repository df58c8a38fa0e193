-- ===== src/Portfolio/Guard/Limits.antt =====
-- src/trading/protection/quote_portfolio_guard.py against its limits, stated as inequalities.
use ml_crypto_trading.Prelude.{
  ℕ, ◌≤◌, ◌≡◌, ◌↔◌, refl, Bool, true, false, Option, none, some, String, List, [], ◌∷◌, ◌++◌, arith,
  if◌then◌else◌,
}
use ml_crypto_trading.Prelude.Int.{ℤ, pos, ◌≤ℤ◌, ◌+ℤ◌, ◌-ℤ◌, ltb_ℤ}
use ml_crypto_trading.Prelude.Decimal.{DecimalContext}
use ml_crypto_trading.Portfolio.Config.{MarketRegime, EffectivePortfolioConfig}
use ml_crypto_trading.Portfolio.Guard.{
  PortfolioRiskMetrics, Violation, insufficient_cash, reserve_breached, max_asset, max_total,
  quote_exposure_exceeded, concentration_exceeded, total_exposure_exceeded, illiquid_market,
  is_illiquid, neg_abs, flag, over_limit, drawdown_check, projected_count, count_check, decide_on,
  check_all, evaluate,
}

-- A ratio to a positive equity is within a limit, if there is one.
abbrev pub IsUnder : DecimalContext → ℤ → ℤ → Option ℤ → Type 0
IsUnder ctx equity amount none = Unit
IsUnder ctx equity amount (some limit) = pos 1 ≤ℤ equity → ctx.div amount equity ≤ℤ limit

abbrev pub IsShallow : ℤ → Option ℤ → Type 0
IsShallow drawdown none = Unit
IsShallow drawdown (some d) = neg_abs d ≤ℤ drawdown

abbrev pub IsFew : ℕ → Option ℕ → Type 0
IsFew count none = Unit
IsFew count (some limit) = count ≤ limit

-- The limits that an order must respect.
pub record IsWithin (ctx : DecimalContext) (cost : ℤ) (risk : PortfolioRiskMetrics)
    (regime : MarketRegime) (config : EffectivePortfolioConfig) : Type 0 where
  pub cash : cost ≤ℤ risk.available_cash
  pub reserve :
      ctx.mul risk.total_equity config.guard.min_quote_reserve ≤ℤ risk.available_cash -ℤ cost
  pub quote_exposure :
      IsUnder ctx risk.total_equity
        (risk.invested_notional +ℤ cost)
        (some config.guard.max_quote_exposure)
  pub concentration :
      IsUnder ctx risk.total_equity (risk.asset_notional +ℤ cost) (max_asset ctx config)
  pub total_exposure :
      IsUnder ctx risk.total_equity (risk.invested_notional +ℤ cost) (max_total ctx config)
  pub drawdown : IsShallow risk.drawdown_pct config.guard.max_drawdown
  pub positions : IsFew (projected_count risk) config.guard.max_position_count
  pub liquid : config.regime.enabled ≡ true → is_illiquid regime ≡ false

append-nil_iff : (xs ys : List Violation) → (xs ++ ys ≡ []) ↔ ((xs ≡ []) × (ys ≡ []))
append-nil_iff [] ys = (λ e. (refl, e), λ e. e.1)
append-nil_iff (x ∷ xs) ys = (λ e. cc, λ e. cc (e.0))

flag-nil_iff : (a b : ℤ) (v : Violation) → (flag (ltb_ℤ a b) v ≡ []) ↔ (b ≤ℤ a)
flag-nil_iff a b v = ground arith

IsUnder-iff :
    (ctx : DecimalContext) (equity amount : ℤ) (limit : Option ℤ) (v : ℤ → ℤ → Violation)
    → (over_limit ctx equity amount limit v ≡ []) ↔ IsUnder ctx equity amount limit
IsUnder-iff ctx equity amount none v = (λ e. tt, λ e. refl)
IsUnder-iff ctx equity amount (some limit) v = ground arith

IsShallow-iff :
    (drawdown : ℤ) (limit : Option ℤ)
    → (drawdown_check drawdown limit ≡ []) ↔ IsShallow drawdown limit
IsShallow-iff drawdown none = (λ e. tt, λ e. refl)
IsShallow-iff drawdown (some d) = flag-nil_iff drawdown (neg_abs d) _

IsFew-iff : (count : ℕ) (limit : Option ℕ) → (count_check count limit ≡ []) ↔ IsFew count limit
IsFew-iff count none = (λ e. tt, λ e. refl)
IsFew-iff count (some limit) = ground arith

liquid_iff :
    (enabled illiquid : Bool)
    → ((if enabled then flag illiquid illiquid_market else []) ≡ [])
      ↔ (enabled ≡ true → illiquid ≡ false)
liquid_iff enabled illiquid = ground arith

allowed_iff : (vs : List Violation) → ((decide_on vs).allowed ≡ true) ↔ (vs ≡ [])
allowed_iff [] = (λ e. refl, λ e. refl)
allowed_iff (v ∷ vs) = (λ e. cc, λ e. cc)

both_iff :
    {P Q : Type 0} (xs ys : List Violation)
    → (xs ≡ []) ↔ P
    → (ys ≡ []) ↔ Q
    → (xs ++ ys ≡ []) ↔ (P × Q)
both_iff xs ys p q = (
  λ e. let parts = (append-nil_iff xs ys).0 e in (p.0 parts.0, q.0 parts.1),
  λ h. (append-nil_iff xs ys).1 (p.1 h.0, q.1 h.1),
)

module _ (ctx : DecimalContext) (asset_symbol : String) (cost : ℤ) (risk : PortfolioRiskMetrics)
    (regime : MarketRegime) (config : EffectivePortfolioConfig) where
  check_all-IsWithin :
      (check_all ctx asset_symbol cost risk regime config ≡ [])
      ↔ IsWithin ctx cost risk regime config
  unfolding check_all
  check_all-IsWithin =
      let required = ctx.mul risk.total_equity config.guard.min_quote_reserve in
      let shortfall = reserve_breached (risk.available_cash -ℤ cost) required in
      let all =
        both_iff _ _
          (flag-nil_iff risk.available_cash cost (insufficient_cash cost risk.available_cash))
          (both_iff _ _
            (flag-nil_iff (risk.available_cash -ℤ cost)
              (ctx.mul risk.total_equity config.guard.min_quote_reserve) shortfall)
            (both_iff _ _
              (IsUnder-iff ctx risk.total_equity (risk.invested_notional +ℤ cost)
                (some config.guard.max_quote_exposure) quote_exposure_exceeded)
              (both_iff _ _
                (IsUnder-iff ctx risk.total_equity (risk.asset_notional +ℤ cost)
                  (max_asset ctx config) (concentration_exceeded asset_symbol))
                (both_iff _ _
                  (IsUnder-iff ctx risk.total_equity (risk.invested_notional +ℤ cost)
                    (max_total ctx config) total_exposure_exceeded)
                  (both_iff _ _ (IsShallow-iff risk.drawdown_pct config.guard.max_drawdown) (
                    both_iff _ _ (IsFew-iff (projected_count risk) config.guard.max_position_count)
                      (liquid_iff config.regime.enabled (is_illiquid regime)))))))) in
      (
        λ e.
            let p = all.0 e in
            record {
              cash = p.0;
              reserve = p.1.0;
              quote_exposure = p.1.1.0;
              concentration = p.1.1.1.0;
              total_exposure = p.1.1.1.1.0;
              drawdown = p.1.1.1.1.1.0;
              positions = p.1.1.1.1.1.1.0;
              liquid = p.1.1.1.1.1.1.1;
            },
        λ w. all.1 (
          w.cash,
          (
            w.reserve,
            (
              w.quote_exposure,
              (w.concentration, (w.total_exposure, (w.drawdown, (w.positions, w.liquid)))),
            ),
          ),
        ),
      )

  -- With the guard enabled, an order is allowed exactly if it respects every limit.
  pub evaluate-IsWithin :
      config.guard.enabled ≡ true
      → ((evaluate ctx asset_symbol cost risk regime config).allowed ≡ true)
        ↔ IsWithin ctx cost risk regime config
  unfolding evaluate
  evaluate-IsWithin on =
      let allowed = allowed_iff (check_all ctx asset_symbol cost risk regime config) in
      simp on (λ e. check_all-IsWithin.0 (allowed.0 e), λ w. allowed.1 (check_all-IsWithin.1 w))
