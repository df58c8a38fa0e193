-- ===== src/Tests/PortfolioTests.antt =====
-- The theorems about src/trading/protection at concrete inputs.
use ml_crypto_trading.Prelude.{
  ◌≡◌, refl, ◌↔◌, true, false, none, some, List, [], ◌∷◌, String, arith,
}
use ml_crypto_trading.Prelude.Int.{pos, ◌+ℤ◌, ◌-ℤ◌, ◌*ℤ◌, max_ℤ}
use ml_crypto_trading.Prelude.Decimal.{DecimalContext, zero_dec}
use ml_crypto_trading.Prelude.Dict.{lookup}
use ml_crypto_trading.Prelude.Text.{String-discrete}
use ml_crypto_trading.Portfolio.Book.{
  QuotePortfolio, empty, reconcile_orders, get_drawdown, get_total_equity,
}
use ml_crypto_trading.Portfolio.Book.Ledger.{IsBalanced}
use ml_crypto_trading.Portfolio.Book.Ledger.Reconcile.{reconcile_orders_lem}
use ml_crypto_trading.Portfolio.Book.Equity as Equity
use ml_crypto_trading.Portfolio.Book.Equity.{IsBounded, run-empty-IsBounded}
use ml_crypto_trading.Portfolio.Config.{
  PortfolioConfig, normal, resolve, default_exposure, EffectivePortfolioConfig, resolve_exposure,
  resolve_regime, resolve_guard,
}
use ml_crypto_trading.Portfolio.Guard.{evaluate, check_all}
use ml_crypto_trading.Portfolio.Guard.Limits.{IsWithin, evaluate-IsWithin}
use ml_crypto_trading.Portfolio.Manager.{
  Asset, Key-discrete, PortfolioRiskManager, portfolio_at, reserve_order_cash,
}
use ml_crypto_trading.Orders.{pending, Order, buy}
use ml_crypto_trading.Portfolio.Manager.Events.{
  order_submitted, order_filled, market_data, Step, event, registered, cash_balance, run,
}
use ml_crypto_trading.Portfolio.Manager.Events.Balance.{AllBalanced, run-AllBalanced}
use ml_crypto_trading.Portfolio.Manager.Trading.{
  can_trade, with_explicit, risk_metrics, reserve_order_cash-can_trade,
}

-- One unit is a thousandth; a quotient is in thousandths, rounded to 0 here.
abbrev units : DecimalContext
units = record { milli = 1; mul = ◌*ℤ◌; div = λ a b. zero_dec }

-- 100 in cash, of which an order holds 30.
abbrev book : QuotePortfolio
book = record (empty "CRYPTO_COM" "USD") {
  total_cash = pos 100;
  reserved_cash = pos 30;
  open_orders = ("order-1", pos 30) ∷ [];
}

book-IsBalanced : IsBalanced book
unfolding ◌+ℤ◌
book-IsBalanced = record { orders = (omega arith, refl, tt); reserved = refl }

reconcile_orders_lem_example :
    let (p', released) = reconcile_orders (λ uuid. false) book in
    IsBalanced p'
    × (p'.reserved_cash +ℤ released ≡ pos 30)
    × ((j : String) → lookup String-discrete j p'.open_orders ≡ none)
reconcile_orders_lem_example = reconcile_orders_lem (λ uuid. false) book book-IsBalanced

run-empty-IsBounded_example : IsBounded units (
    Equity.run units
      (Equity.cash (pos 100) ∷ Equity.reserve "order-1" (pos 30) ∷ [])
      (empty "CRYPTO_COM" "USD"))
run-empty-IsBounded_example =
    run-empty-IsBounded units "CRYPTO_COM" "USD"
      (Equity.cash (pos 100) ∷ Equity.reserve "order-1" (pos 30) ∷ [])

abbrev global_config : PortfolioConfig
global_config = record {
  exposure = default_exposure units;
  regime = record {
    enabled = true;
    period = 20;
    high_volatility_threshold = pos 30;
    low_volatility_threshold = pos 5;
    trend_threshold = pos 5;
    illiquid_spread_threshold = pos 50;
    min_data_points = 3;
  };
  guard = record {
    enabled = true;
    max_drawdown = some (pos 100);
    max_daily_loss = some (pos 50);
    max_position_count = some 10;
    min_quote_reserve = zero_dec;
    max_quote_exposure = pos 800;
  };
}

abbrev bitcoin : Asset
bitcoin = record {
  exchange = "CRYPTO_COM";
  quote_ticker_symbol = "USD";
  ticker_symbol = "BTC_USD";
  portfolio = none;
}

abbrev manager : PortfolioRiskManager
manager = record {
  portfolios = (("CRYPTO_COM", "USD"), book) ∷ [];
  portfolio_config = global_config;
  explicit_drawdown = none;
  explicit_concentration = none;
}

abbrev purchase : Order
purchase = record {
  uuid = "order-2";
  provider_name = "CRYPTO_COM";
  ticker_symbol = "BTC_USD";
  price = pos 10;
  quantity = pos 2;
  trade_action = buy;
  created_time = 7;
  commit_hash = none;
  executed_time = none;
  status = some pending;
  fees = none;
  fill_price = none;
  winning_strategy = none;
  strategy_votes = none;
  strategy_attributions = none;
  slippage = none;
  decision_id = none;
  regime = none;
}

abbrev steps : List Step
steps =
    registered bitcoin
    ∷ event (order_submitted purchase)
    ∷ event (order_submitted purchase)
    ∷ event (market_data "BTC_USD" (pos 11))
    ∷ event (order_filled purchase)
    ∷ cash_balance "CRYPTO_COM" "USD" (pos 80)
    ∷ []

run-AllBalanced_example : AllBalanced (run units steps manager).portfolios
run-AllBalanced_example = run-AllBalanced units steps manager (book-IsBalanced, tt)

abbrev config_now : EffectivePortfolioConfig
config_now = resolve units global_config none (some normal)

evaluate-IsWithin_example :
    ((evaluate units "BTC_USD"
        (pos 50)
        (risk_metrics units "BTC_USD" book)
        normal
        config_now).allowed
      ≡ true)
    ↔ IsWithin units (pos 50) (risk_metrics units "BTC_USD" book) normal config_now
unfolding resolve resolve_guard
evaluate-IsWithin_example =
    evaluate-IsWithin units "BTC_USD" (pos 50) (risk_metrics units "BTC_USD" book) normal config_now
      refl

reserve_order_cash-can_trade_example :
    (reserve_order_cash bitcoin "order-2"
      (pos 50)
      (can_trade units bitcoin buy (pos 50) none (some normal) manager).0).1
    ≡ true
unfolding can_trade resolve resolve_guard resolve_exposure resolve_regime with_explicit risk_metrics
    portfolio_at Key-discrete String-discrete evaluate check_all get_total_equity max_ℤ ◌-ℤ◌ ◌+ℤ◌
    ◌*ℤ◌ get_drawdown
reserve_order_cash-can_trade_example =
    reserve_order_cash-can_trade units bitcoin (pos 50) none (some normal) manager "order-2" refl
      refl
