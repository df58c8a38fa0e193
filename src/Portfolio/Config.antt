-- ===== src/Portfolio/Config.antt =====
-- src/configuration/portfolio_config.py, src/trading/regimes/market_regime.py (the enum and its
-- multipliers) and src/trading/protection/portfolio_policy_resolver.py. The fields of the Pydantic
-- models carry the values that validation has left; an override's fields that are not optional in the
-- model are never `None`, so that the code's fallback for them is dead.
use ml_crypto_trading.Prelude.{ℕ, Bool, true, Option, none, some}
use ml_crypto_trading.Prelude.Int.{ℤ}
use ml_crypto_trading.Prelude.Decimal.{DecimalContext, thousandths}

pub data MarketRegime : Type 0 where
  trending_up trending_down ranging high_volatility low_volatility illiquid normal extreme unknown :
      MarketRegime

pub record PortfolioExposureConfig : Type 0 where
  pub max_total : Option ℤ
  pub max_per_asset : Option ℤ
  pub max_per_quote : Option ℤ

pub record MarketRegimeConfig : Type 0 where
  pub enabled : Bool
  pub period : ℕ
  pub high_volatility_threshold : ℤ
  pub low_volatility_threshold : ℤ
  pub trend_threshold : ℤ
  pub illiquid_spread_threshold : ℤ
  pub min_data_points : ℕ

pub record QuotePortfolioGuardConfig : Type 0 where
  pub enabled : Bool
  pub max_drawdown : Option ℤ
  pub max_daily_loss : Option ℤ
  pub max_position_count : Option ℕ
  pub min_quote_reserve : ℤ
  pub max_quote_exposure : ℤ

pub record PortfolioConfig : Type 0 where
  pub exposure : PortfolioExposureConfig
  pub regime : MarketRegimeConfig
  pub guard : QuotePortfolioGuardConfig

pub record AssetPortfolioOverride : Type 0 where
  pub exposure : Option PortfolioExposureConfig
  pub regime : Option MarketRegimeConfig
  pub guard : Option QuotePortfolioGuardConfig

pub record EffectivePortfolioConfig : Type 0 where
  pub exposure : PortfolioExposureConfig
  pub regime : MarketRegimeConfig
  pub guard : QuotePortfolioGuardConfig
  pub regime_multiplier : ℤ

-- `a if a is not None else b`
abbrev pub prefer {ℓ} : {A : Type ℓ} → Option A → Option A → Option A
prefer (some a) b = some a
prefer none b = b

-- The field defaults of `PortfolioExposureConfig`.
abbrev pub default_exposure : DecimalContext → PortfolioExposureConfig
default_exposure ctx = record {
  max_total = some (thousandths ctx 800);
  max_per_asset = some (thousandths ctx 250);
  max_per_quote = some (thousandths ctx 500);
}

-- `_resolve_exposure`
unfoldable pub resolve_exposure :
    PortfolioExposureConfig → Option PortfolioExposureConfig → PortfolioExposureConfig
resolve_exposure g none = g
resolve_exposure g (some o) = record {
  max_total = prefer o.max_total g.max_total;
  max_per_asset = prefer o.max_per_asset g.max_per_asset;
  max_per_quote = prefer o.max_per_quote g.max_per_quote;
}

-- `_resolve_regime`
unfoldable pub resolve_regime : MarketRegimeConfig → Option MarketRegimeConfig → MarketRegimeConfig
resolve_regime g none = g
resolve_regime g (some o) = record o { min_data_points = g.min_data_points }

-- `_resolve_guard`
unfoldable pub resolve_guard :
    QuotePortfolioGuardConfig → Option QuotePortfolioGuardConfig → QuotePortfolioGuardConfig
resolve_guard g none = g
resolve_guard g (some o) = record o {
  max_drawdown = prefer o.max_drawdown g.max_drawdown;
  max_daily_loss = prefer o.max_daily_loss g.max_daily_loss;
  max_position_count = prefer o.max_position_count g.max_position_count;
}

-- `override.exposure if override else None`, and so for the other two parts.
abbrev exposure_of : Option AssetPortfolioOverride → Option PortfolioExposureConfig
exposure_of none = none
exposure_of (some o) = o.exposure

abbrev regime_of : Option AssetPortfolioOverride → Option MarketRegimeConfig
regime_of none = none
regime_of (some o) = o.regime

abbrev guard_of : Option AssetPortfolioOverride → Option QuotePortfolioGuardConfig
guard_of none = none
guard_of (some o) = o.guard

module _ (ctx : DecimalContext) where
  open ctx use {mul}

  -- `MarketRegime.get_exposure_multiplier`
  abbrev pub get_exposure_multiplier : MarketRegime → ℤ
  get_exposure_multiplier high_volatility = thousandths ctx 500
  get_exposure_multiplier trending_down = thousandths ctx 750
  get_exposure_multiplier illiquid = thousandths ctx 125
  get_exposure_multiplier extreme = thousandths ctx 125
  get_exposure_multiplier _ = thousandths ctx 1000

  abbrev multiplier_of : Bool → Option MarketRegime → ℤ
  multiplier_of true (some r) = get_exposure_multiplier r
  multiplier_of _ _ = thousandths ctx 1000

  -- `PortfolioPolicyResolver.resolve`
  unfoldable pub resolve :
      PortfolioConfig
      → Option AssetPortfolioOverride
      → Option MarketRegime
      → EffectivePortfolioConfig
  unfolding resolve_exposure resolve_regime resolve_guard
  resolve g override regime =
      let regime_config = resolve_regime g.regime (regime_of override) in
      record {
        exposure = resolve_exposure g.exposure (exposure_of override);
        regime = regime_config;
        guard = resolve_guard g.guard (guard_of override);
        regime_multiplier = multiplier_of regime_config.enabled regime;
      }

  abbrev scaled : Option ℤ → ℤ → Option ℤ
  scaled none m = none
  scaled (some a) m = some (mul a m)

  -- The properties `effective_max_total` and `effective_max_per_asset`.
  abbrev pub effective_max_total : EffectivePortfolioConfig → Option ℤ
  effective_max_total c = scaled c.exposure.max_total c.regime_multiplier

  abbrev pub effective_max_per_asset : EffectivePortfolioConfig → Option ℤ
  effective_max_per_asset c = scaled c.exposure.max_per_asset c.regime_multiplier
