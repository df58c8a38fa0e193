-- ===== src/Portfolio/Book/Equity.antt =====
-- src/trading/protection/quote_portfolio.py: the equity and its peak, over sequences of calls.
use ml_crypto_trading.Prelude.{
  inl, inr, Bool, Bool-cases, Option, none, some, String, List, [], ◌∷◌, arith,
}
use ml_crypto_trading.Prelude.Int.{ℤ, ◌≤ℤ◌, max_ℤ, leb_ℤ, ltb_ℤ, int_laws}
use ml_crypto_trading.Prelude.Decimal.{DecimalContext, zero_dec, max_le_left, max_nonneg}
use ml_crypto_trading.Prelude.Dict.{lookup, IsValid, insert-IsValid}
use ml_crypto_trading.Prelude.Text.{String-discrete}
use ml_crypto_trading.Portfolio.Book.{
  QuotePortfolio, empty, available_cash, reserve_cash, release_held, release_cash, release_all,
  reconcile_orders, get_total_equity, refresh_peak_equity, update_cash, update_asset_position,
  update_asset_mark_price,
}

-- A call of a method that changes the portfolio.
pub data Call : Type 0 where
  cash : ℤ → Call
  position : String → ℤ → Call
  mark_price : String → ℤ → Call
  reserve : String → ℤ → Call
  release : String → Call
  reconcile : (String → Bool) → Call

module _ (ctx : DecimalContext) where
  abbrev pub perform : Call → QuotePortfolio → QuotePortfolio
  perform (cash amount) p = update_cash ctx amount p
  perform (position ticker quantity) p = update_asset_position ctx ticker quantity p
  perform (mark_price ticker price) p = update_asset_mark_price ctx ticker price p
  perform (reserve uuid amount) p = (reserve_cash uuid amount p).0
  perform (release uuid) p = (release_cash uuid p).0
  perform (reconcile is_active) p = (reconcile_orders is_active p).0

  pub run : List Call → QuotePortfolio → QuotePortfolio
  run [] p = p
  run (c ∷ cs) p = run cs (perform c p)

  -- The equity is at most its peak; cash, positions and prices are not negative.
  pub record IsBounded (p : QuotePortfolio) : Type 0 where
    pub peak : get_total_equity ctx p ≤ℤ p.peak_equity
    pub cash : zero_dec ≤ℤ p.total_cash
    pub positions : IsValid String-discrete (λ k q. zero_dec ≤ℤ q) p.asset_positions
    pub prices : IsValid String-discrete (λ k q. zero_dec ≤ℤ q) p.asset_mark_prices

  refresh-IsBounded :
      (p : QuotePortfolio)
      → zero_dec ≤ℤ p.total_cash
      → IsValid String-discrete (λ k q. zero_dec ≤ℤ q) p.asset_positions
      → IsValid String-discrete (λ k q. zero_dec ≤ℤ q) p.asset_mark_prices
      → IsBounded (refresh_peak_equity ctx p)
  unfolding refresh_peak_equity get_total_equity
  refresh-IsBounded p c q m = record {
    peak = max_le_left (get_total_equity ctx p) p.peak_equity;
    cash = c;
    positions = q;
    prices = m;
  }

  reserve_cash-IsBounded :
      (uuid : String) (amount : ℤ) (p : QuotePortfolio)
      → IsBounded p
      → IsBounded (reserve_cash uuid amount p).0
  unfolding reserve_cash get_total_equity
  reserve_cash-IsBounded uuid amount p h = elim (Bool-cases (leb_ℤ amount zero_dec)) [
    | inl small ↦ rw small h
    | inr positive ↦ elim (Bool-cases (ltb_ℤ (available_cash p) amount)) [
      | inl short ↦ rw (positive, short) h
      | inr fits ↦
          rw (positive, fits)
            (record { peak = h.peak; cash = h.cash; positions = h.positions; prices = h.prices })
    ]
  ]

  release_held-IsBounded :
      (held : Option ℤ) (uuid : String) (p : QuotePortfolio)
      → IsBounded p
      → IsBounded (release_held held uuid p).0
  unfolding release_held get_total_equity
  release_held-IsBounded none uuid p h = h
  release_held-IsBounded (some amount) uuid p h = record {
    peak = h.peak;
    cash = h.cash;
    positions = h.positions;
    prices = h.prices;
  }

  release_all-IsBounded :
      (uuids : List String) (total : ℤ) (p : QuotePortfolio)
      → IsBounded p
      → IsBounded (release_all uuids total p).0
  unfolding release_all release_cash
  release_all-IsBounded [] total p h = h
  release_all-IsBounded (uuid ∷ uuids) total p h =
      release_all-IsBounded uuids _ (release_cash uuid p).0
        (release_held-IsBounded (lookup String-discrete uuid p.open_orders) uuid p h)

  perform-IsBounded : (c : Call) (p : QuotePortfolio) → IsBounded p → IsBounded (perform c p)
  unfolding update_cash update_asset_position update_asset_mark_price release_cash reconcile_orders
  perform-IsBounded (cash amount) p h =
      refresh-IsBounded (record p { total_cash = max_ℤ zero_dec amount }) (max_nonneg amount)
        h.positions h.prices
  perform-IsBounded (position ticker quantity) p h =
      refresh-IsBounded _ h.cash
        (insert-IsValid String-discrete _ ticker (max_ℤ zero_dec quantity) p.asset_positions
          (max_nonneg quantity) h.positions)
        h.prices
  perform-IsBounded (mark_price ticker price) p h = refresh-IsBounded _ h.cash h.positions (
      insert-IsValid String-discrete _ ticker (max_ℤ zero_dec price) p.asset_mark_prices
        (max_nonneg price) h.prices)
  perform-IsBounded (reserve uuid amount) p h = reserve_cash-IsBounded uuid amount p h
  perform-IsBounded (release uuid) p h =
      release_held-IsBounded (lookup String-discrete uuid p.open_orders) uuid p h
  perform-IsBounded (reconcile is_active) p h = release_all-IsBounded _ zero_dec p h

  run-IsBounded : (cs : List Call) (p : QuotePortfolio) → IsBounded p → IsBounded (run cs p)
  unfolding run
  run-IsBounded [] p h = h
  run-IsBounded (c ∷ cs) p h = run-IsBounded cs (perform c p) (perform-IsBounded c p h)

  empty-IsBounded : (exchange quote_currency : String) → IsBounded (empty exchange quote_currency)
  unfolding get_total_equity
  empty-IsBounded exchange quote_currency = record {
    peak = omega int_laws;
    cash = omega arith;
    positions = tt;
    prices = tt;
  }

  -- However a new portfolio is used, its equity never exceeds the recorded peak, and its cash, its
  -- positions and its prices are not negative, whatever amounts it is given and however products
  -- are rounded.
  pub run-empty-IsBounded :
      (exchange quote_currency : String) (cs : List Call)
      → IsBounded (run cs (empty exchange quote_currency))
  run-empty-IsBounded exchange quote_currency cs =
      run-IsBounded cs (empty exchange quote_currency) (empty-IsBounded exchange quote_currency)
