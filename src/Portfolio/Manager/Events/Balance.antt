-- ===== src/Portfolio/Manager/Events/Balance.antt =====
-- src/trading/protection/portfolio_risk_manager.py: reserved cash against the open orders, over
-- sequences of events and calls.
use ml_crypto_trading.Prelude.{
  String, Bool, not, ◌&&◌, ◌||◌, Bool-cases, inl, inr, ◌≡◌, refl, Option, none, some, List, [], ◌∷◌,
  All, false, if_intro, ite_intro, holds, if◌then◌else◌, or_else, Option-cases,
}
use ml_crypto_trading.Prelude.Int.{ℤ, ltb_ℤ, ◌+ℤ◌}
use ml_crypto_trading.Prelude.Dict.{Dict, lookup, insert, contains}
use ml_crypto_trading.Prelude.Text.{String-discrete, same_upper, after_underscore}
use ml_crypto_trading.Prelude.Decimal.{DecimalContext, zero_dec}
use ml_crypto_trading.Portfolio.Book.{
  QuotePortfolio, empty, reserve_cash, release_cash, reconcile_orders, refresh_peak_equity,
  update_cash, update_asset_position, update_asset_mark_price,
}
use ml_crypto_trading.Portfolio.Book.Ledger.{
  IsBalanced, reserve_cash-IsBalanced, release_cash-IsBalanced,
}
use ml_crypto_trading.Portfolio.Book.Ledger.Reconcile.{reconcile_orders_lem}
use ml_crypto_trading.Portfolio.Manager.{
  Asset, Key, Key-discrete, PortfolioRiskManager, portfolio_at, register_asset, with_portfolio,
  release_by_uuid, release_order_cash_by_uuid, reconcile_each, reconcile_open_orders, each,
  set_cash,
}
use ml_crypto_trading.Orders.{is_buy, Order, TradeAction, buy, sell}
use ml_crypto_trading.Portfolio.Config.{MarketRegime}
use ml_crypto_trading.Portfolio.Manager.Trading.{marked_at, can_trade}
use ml_crypto_trading.Portfolio.Manager.Events.{
  on_buy, order_price, quote_matches, exchange_matches, Event, order_submitted, order_filled,
  order_cancelled, order_rejected, market_data, balance_changed, submit_to, on_order_submitted,
  on_market_data, on_balance_changed, handle, Step, event, registered, configured, cash_balance,
  marked, position, released, reconciled, asked, perform, run,
}

abbrev pub AllBalanced : Dict Key QuotePortfolio → Type 0
AllBalanced d = All (λ e. IsBalanced e.1) d

insert-AllBalanced :
    (k : Key) (p : QuotePortfolio) (d : Dict Key QuotePortfolio)
    → IsBalanced p
    → AllBalanced d
    → AllBalanced (insert Key-discrete k p d)
insert-AllBalanced k p [] b h = (b, tt)
insert-AllBalanced k p ((j, q) ∷ d) b h =
    ite_intro AllBalanced (Key-discrete j k) ((k, p) ∷ d) ((j, q) ∷ insert Key-discrete k p d)
      (b, h.1) (h.0, insert-AllBalanced k p d b h.1)

empty-IsBalanced : (exchange quote_currency : String) → IsBalanced (empty exchange quote_currency)
empty-IsBalanced exchange quote_currency = record { orders = tt; reserved = refl }

portfolio_at-IsBalanced :
    (k : Key) (d : Dict Key QuotePortfolio) → AllBalanced d → IsBalanced (portfolio_at k d)
unfolding portfolio_at
portfolio_at-IsBalanced k [] h = empty-IsBalanced k.0 k.1
portfolio_at-IsBalanced k ((j, q) ∷ d) h =
    ite_intro (λ o. IsBalanced (or_else o (empty k.0 k.1))) (Key-discrete j k) (some q)
      (lookup Key-discrete k d) h.0 (portfolio_at-IsBalanced k d h.1)

each-AllBalanced :
    (change : Key → QuotePortfolio → QuotePortfolio)
    → ((k : Key) (p : QuotePortfolio) → IsBalanced p → IsBalanced (change k p))
    → (d : Dict Key QuotePortfolio) → AllBalanced d
    → AllBalanced (each change d)
each-AllBalanced change keeps [] h = tt
each-AllBalanced change keeps ((k, p) ∷ d) h = (keeps k p h.0, each-AllBalanced change keeps d h.1)

release_by_uuid-AllBalanced :
    (uuid : String) (d : Dict Key QuotePortfolio)
    → AllBalanced d
    → AllBalanced (release_by_uuid uuid d).0
unfolding release_by_uuid
release_by_uuid-AllBalanced uuid [] h = tt
release_by_uuid-AllBalanced uuid ((k, p) ∷ d) h =
    let one = (release_cash-IsBalanced uuid p h.0).0 in
    elim (Bool-cases (ltb_ℤ zero_dec (release_cash uuid p).1)) [
      | inl done ↦ rw done (one, h.1)
      | inr more ↦ rw more (one, release_by_uuid-AllBalanced uuid d h.1)
    ]

reconcile_each-AllBalanced :
    (is_active : String → Bool) (total : ℤ) (d : Dict Key QuotePortfolio)
    → AllBalanced d
    → AllBalanced (reconcile_each is_active total d).0
unfolding reconcile_each
reconcile_each-AllBalanced is_active total [] h = tt
reconcile_each-AllBalanced is_active total ((k, p) ∷ d) h = (
  (reconcile_orders_lem is_active p h.0).0,
  reconcile_each-AllBalanced is_active (total +ℤ (reconcile_orders is_active p).1) d h.1,
)

contains_not :
    (uuid : String) (d : Dict String ℤ)
    → contains String-discrete uuid d ≡ false
    → lookup String-discrete uuid d ≡ none
contains_not uuid d h = elim (Option-cases (lookup String-discrete uuid d)) [
  | inl e ↦ e
  | inr (a, e) ↦ cc
]

submit_to-AllBalanced :
    (o : Order) (cost : ℤ) (quote : Option String) (d : Dict Key QuotePortfolio)
    → AllBalanced d
    → AllBalanced (submit_to o cost quote d)
unfolding submit_to
submit_to-AllBalanced o cost quote [] h = tt
submit_to-AllBalanced o cost quote ((k, p) ∷ d) h =
    let rest = submit_to-AllBalanced o cost quote d h.1 in
    let reserve : AllBalanced (
        if contains String-discrete o.uuid p.open_orders
        then (k, p) ∷ d
        else (k, (reserve_cash o.uuid cost p).0) ∷ d) =
      elim (Bool-cases (contains String-discrete o.uuid p.open_orders)) [
        | inl old ↦ rw old h
        | inr new ↦ rw new (
          (reserve_cash-IsBalanced o.uuid cost p (contains_not o.uuid p.open_orders new) h.0).0,
          h.1,
        )
      ] in
    if_intro AllBalanced (holds (String-discrete k.0 o.provider_name) && quote_matches quote k.1)
      reserve (h.0, rest)

module _ (ctx : DecimalContext) where
  set_cash-IsBalanced :
      (target : ℤ) (p : QuotePortfolio) → IsBalanced p → IsBalanced (set_cash ctx target p)
  unfolding set_cash update_cash refresh_peak_equity
  set_cash-IsBalanced target p h =
      if_intro IsBalanced (not (ltb_ℤ p.total_cash target || ltb_ℤ target p.total_cash))
        {y = update_cash ctx target p} h (record { orders = h.orders; reserved = h.reserved })

  mark_price-IsBalanced :
      (ticker : String) (price : ℤ) (p : QuotePortfolio)
      → IsBalanced p
      → IsBalanced (update_asset_mark_price ctx ticker price p)
  unfolding update_asset_mark_price refresh_peak_equity
  mark_price-IsBalanced ticker price p h = record { orders = h.orders; reserved = h.reserved }

  set_at-AllBalanced :
      (k : Key) (change : QuotePortfolio → QuotePortfolio)
      → ((p : QuotePortfolio) → IsBalanced p → IsBalanced (change p))
      → (m : PortfolioRiskManager) → AllBalanced m.portfolios
      → AllBalanced (with_portfolio k change m).portfolios
  unfolding with_portfolio
  set_at-AllBalanced k change keeps m h =
      insert-AllBalanced k (change (portfolio_at k m.portfolios)) m.portfolios
        (keeps _ (portfolio_at-IsBalanced k m.portfolios h)) h

  release-AllBalanced :
      (uuid : String) (m : PortfolioRiskManager)
      → AllBalanced m.portfolios
      → AllBalanced (release_order_cash_by_uuid uuid m).0.portfolios
  unfolding release_order_cash_by_uuid
  release-AllBalanced uuid m h = release_by_uuid-AllBalanced uuid m.portfolios h

  handle-AllBalanced :
      (e : Event) (m : PortfolioRiskManager)
      → AllBalanced m.portfolios
      → AllBalanced (handle ctx e m).portfolios
  unfolding handle on_order_submitted on_market_data on_balance_changed
  handle-AllBalanced (order_submitted o) m h =
      if_intro (λ m'. AllBalanced m'.portfolios) (is_buy o.trade_action) {x = on_buy ctx o m}
        {y = m}
        (submit_to-AllBalanced o (ctx.mul (order_price o) o.quantity)
          (after_underscore o.ticker_symbol) m.portfolios h)
        h
  handle-AllBalanced (order_filled o) m h = release-AllBalanced o.uuid m h
  handle-AllBalanced (order_cancelled o) m h = release-AllBalanced o.uuid m h
  handle-AllBalanced (order_rejected o) m h = release-AllBalanced o.uuid m h
  handle-AllBalanced (market_data ticker price) m h =
      each-AllBalanced _
        (λ k p b.
          if_intro IsBalanced
            (contains String-discrete ticker p.asset_positions
              || contains String-discrete ticker p.asset_mark_prices)
            (mark_price-IsBalanced ticker price p b) b)
        m.portfolios h
  handle-AllBalanced (balance_changed currency available exchange) m h =
      each-AllBalanced _
        (λ k p b.
          if_intro IsBalanced (exchange_matches exchange k.0 && same_upper k.1 currency)
            (set_cash-IsBalanced available p b) b)
        m.portfolios h

  marked_at-IsBalanced :
      (ticker : String) (close_price : Option ℤ) (p : QuotePortfolio)
      → IsBalanced p
      → IsBalanced (marked_at ctx ticker close_price p)
  marked_at-IsBalanced ticker none p h = h
  marked_at-IsBalanced ticker (some price) p h = mark_price-IsBalanced ticker price p h

  can_trade-AllBalanced :
      (asset : Asset) (action : TradeAction) (cost : ℤ) (close_price : Option ℤ)
      (regime : Option MarketRegime) (m : PortfolioRiskManager)
      → AllBalanced m.portfolios
      → AllBalanced (can_trade ctx asset action cost close_price regime m).0.portfolios
  unfolding can_trade
  can_trade-AllBalanced asset sell cost close_price regime m h = h
  can_trade-AllBalanced asset buy cost close_price regime m h =
      insert-AllBalanced _ _ m.portfolios
        (marked_at-IsBalanced asset.ticker_symbol close_price _
          (portfolio_at-IsBalanced _ m.portfolios h))
        h

  perform-AllBalanced :
      (s : Step) (m : PortfolioRiskManager)
      → AllBalanced m.portfolios
      → AllBalanced (perform ctx s m).portfolios
  unfolding perform register_asset reconcile_open_orders update_asset_position refresh_peak_equity
  perform-AllBalanced (event e) m h = handle-AllBalanced e m h
  perform-AllBalanced (registered asset) m h =
      if_intro (λ m'. AllBalanced m'.portfolios)
        (contains Key-discrete (asset.exchange, asset.quote_ticker_symbol) m.portfolios) {x = m} h
        (insert-AllBalanced (asset.exchange, asset.quote_ticker_symbol) _ m.portfolios
          (empty-IsBalanced asset.exchange asset.quote_ticker_symbol) h)
  perform-AllBalanced (configured c) m h = h
  perform-AllBalanced (cash_balance exchange quote_currency balance) m h =
      set_at-AllBalanced _ _ (set_cash-IsBalanced balance) m h
  perform-AllBalanced (marked asset price) m h =
      set_at-AllBalanced _ _ (mark_price-IsBalanced asset.ticker_symbol price) m h
  perform-AllBalanced (position asset quantity) m h =
      set_at-AllBalanced _ _ (λ p b. record { orders = b.orders; reserved = b.reserved }) m h
  perform-AllBalanced (released exchange quote_currency uuid) m h =
      insert-AllBalanced (exchange, quote_currency) _ m.portfolios
        (release_cash-IsBalanced uuid _ (portfolio_at-IsBalanced _ m.portfolios h)).0 h
  perform-AllBalanced (reconciled is_active) m h =
      reconcile_each-AllBalanced is_active zero_dec m.portfolios h
  perform-AllBalanced (asked asset action cost close_price regime) m h =
      can_trade-AllBalanced asset action cost close_price regime m h

  -- Whatever events and calls come in, in any order and with any repetition, every portfolio of the
  -- manager keeps its reserved cash equal to the sum of its open orders, if each had it before.
  -- The events and calls are those of `Step`: every handler, and every method that changes the manager
  -- but `reserve_order_cash`.
  pub run-AllBalanced :
      (steps : List Step) (m : PortfolioRiskManager)
      → AllBalanced m.portfolios
      → AllBalanced (run ctx steps m).portfolios
  unfolding run
  run-AllBalanced [] m h = h
  run-AllBalanced (s ∷ steps) m h =
      run-AllBalanced steps (perform ctx s m) (perform-AllBalanced s m h)
