-- ===== src/Portfolio/Manager/Events.antt =====
-- src/trading/protection/portfolio_risk_manager.py, the handlers `_on_order_submitted` to
-- `_on_balance_changed`, with the events of src/trading/events/domain_events.py as
-- far as the handlers read them.
pub mod Balance
use ml_crypto_trading.Prelude.{
  zero, String, Bool, true, ◌&&◌, ◌||◌, Option, none, some, List, [], ◌∷◌, holds, if◌then◌else◌,
}
use ml_crypto_trading.Prelude.Int.{ℤ, pos}
use ml_crypto_trading.Prelude.Dict.{Dict, contains}
use ml_crypto_trading.Prelude.Text.{String-discrete, same_upper, after_underscore}
use ml_crypto_trading.Prelude.Decimal.{DecimalContext}
use ml_crypto_trading.Portfolio.Book.{QuotePortfolio, reserve_cash, update_asset_mark_price}
use ml_crypto_trading.Portfolio.Manager.{
  Asset, Key, PortfolioRiskManager, register_asset, update_config, update_cash_balance,
  update_market_data, update_position, release_order_cash, release_order_cash_by_uuid,
  reconcile_open_orders, each, set_cash,
}
use ml_crypto_trading.Portfolio.Manager.Trading.{can_trade}
use ml_crypto_trading.Orders.{Order, TradeAction, is_buy}
use ml_crypto_trading.Portfolio.Config.{PortfolioConfig, MarketRegime}

pub data Event : Type 0 where
  order_submitted : Order → Event
  order_filled : Order → Event
  order_cancelled : Order → Event
  order_rejected : Order → Event
  market_data : String → ℤ → Event
  -- The currency, `available`, and `exchange`.
  balance_changed : String → ℤ → Option String → Event

-- `event.order.fill_price or event.order.price`: a fill price of 0 counts as absent.
abbrev pub order_price : Order → ℤ
order_price o = elim o.fill_price [ none ↦ o.price | some (pos zero) ↦ o.price | some p ↦ p ]

-- `quote is None or quote == quote_currency`
abbrev pub quote_matches : Option String → String → Bool
quote_matches none quote_currency = true
quote_matches (some quote) quote_currency = holds (String-discrete quote quote_currency)

-- The loop of `_on_order_submitted`: it ends at the first portfolio that matches.
unfoldable pub submit_to :
    Order → ℤ → Option String → Dict Key QuotePortfolio → Dict Key QuotePortfolio
submit_to o cost quote [] = []
submit_to o cost quote ((k, p) ∷ d) =
    let rest = submit_to o cost quote d in
    if holds (String-discrete k.0 o.provider_name) && quote_matches quote k.1
    then (if contains String-discrete o.uuid p.open_orders
        then (k, p) ∷ d
        else (k, (reserve_cash o.uuid cost p).0) ∷ d)
    else (k, p) ∷ rest

-- `event.exchange and exchange.upper() != event.exchange.upper()`, negated.
abbrev pub exchange_matches : Option String → String → Bool
exchange_matches none exchange = true
exchange_matches (some String.[]) exchange = true
exchange_matches (some e) exchange = same_upper exchange e

-- An event, or a call of a method that changes the manager. `reserve_order_cash` is left out: under the
-- identifier of an order that holds a reservation it breaks the sum of the reservations.
pub data Step : Type 0 where
  event : Event → Step
  registered : Asset → Step
  configured : PortfolioConfig → Step
  cash_balance : String → String → ℤ → Step
  marked : Asset → ℤ → Step
  position : Asset → ℤ → Step
  released : String → String → String → Step
  reconciled : (String → Bool) → Step
  asked : Asset → TradeAction → ℤ → Option ℤ → Option MarketRegime → Step

module _ (ctx : DecimalContext) where
  open ctx use {mul}

  abbrev pub on_buy : Order → PortfolioRiskManager → PortfolioRiskManager
  on_buy o m = record m {
    portfolios =
        submit_to o (mul (order_price o) o.quantity) (after_underscore o.ticker_symbol)
          m.portfolios;
  }

  -- `_on_order_submitted`
  unfoldable pub on_order_submitted : Order → PortfolioRiskManager → PortfolioRiskManager
  on_order_submitted o m = if is_buy o.trade_action then on_buy o m else m

  -- `_on_market_data`
  unfoldable pub on_market_data : String → ℤ → PortfolioRiskManager → PortfolioRiskManager
  on_market_data ticker_symbol close_price m = record m {
    portfolios =
        each
          (λ k p.
            if contains String-discrete ticker_symbol p.asset_positions
              || contains String-discrete ticker_symbol p.asset_mark_prices
            then update_asset_mark_price ctx ticker_symbol close_price p
            else p)
          m.portfolios;
  }

  -- `_on_balance_changed`
  unfoldable pub on_balance_changed :
      String → ℤ → Option String → PortfolioRiskManager → PortfolioRiskManager
  on_balance_changed currency available exchange m = record m {
    portfolios =
        each
          (λ k p.
            if exchange_matches exchange k.0 && same_upper k.1 currency
            then set_cash ctx available p
            else p)
          m.portfolios;
  }

  -- The handlers that `subscribe` registers; the three for an order that is done are the same.
  unfoldable pub handle : Event → PortfolioRiskManager → PortfolioRiskManager
  handle (order_submitted o) m = on_order_submitted o m
  handle (order_filled o) m = (release_order_cash_by_uuid o.uuid m).0
  handle (order_cancelled o) m = (release_order_cash_by_uuid o.uuid m).0
  handle (order_rejected o) m = (release_order_cash_by_uuid o.uuid m).0
  handle (market_data ticker_symbol close_price) m = on_market_data ticker_symbol close_price m
  handle (balance_changed currency available exchange) m =
      on_balance_changed currency available exchange m

  unfoldable pub perform : Step → PortfolioRiskManager → PortfolioRiskManager
  unfolding handle
  perform (event e) m = handle e m
  perform (registered asset) m = register_asset asset m
  perform (configured c) m = update_config c m
  perform (cash_balance exchange quote_currency balance) m =
      update_cash_balance ctx exchange quote_currency balance m
  perform (marked asset price) m = update_market_data ctx asset price m
  perform (position asset quantity) m = update_position ctx asset quantity m
  perform (released exchange quote_currency uuid) m =
      (release_order_cash exchange quote_currency uuid m).0
  perform (reconciled is_active) m = (reconcile_open_orders is_active m).0
  perform (asked asset action cost close_price regime) m =
      (can_trade ctx asset action cost close_price regime m).0

  unfoldable pub run : List Step → PortfolioRiskManager → PortfolioRiskManager
  unfolding perform
  run [] m = m
  run (s ∷ steps) m = run steps (perform s m)
