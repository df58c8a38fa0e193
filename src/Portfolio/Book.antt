-- ===== src/Portfolio/Book.antt =====
-- src/trading/protection/quote_portfolio.py, `class QuotePortfolio`. The dicts of positions and
-- prices default to 0 for a missing symbol.
pub mod Reservations
pub mod Ledger
pub mod Equity
use ml_crypto_trading.Prelude.{
  String, Bool, true, false, not, Option, none, some, List, [], ◌∷◌, select, or_else, if◌then◌else◌,
}
use ml_crypto_trading.Prelude.Int.{ℤ, ◌+ℤ◌, ◌-ℤ◌, max_ℤ, ltb_ℤ, leb_ℤ}
use ml_crypto_trading.Prelude.Dict.{Dict, keys, lookup, insert, erase}
use ml_crypto_trading.Prelude.Text.{String-discrete}
use ml_crypto_trading.Prelude.Decimal.{DecimalContext, zero_dec}

pub record QuotePortfolio : Type 0 where
  pub exchange : String
  pub quote_currency : String
  pub total_cash : ℤ
  pub reserved_cash : ℤ
  pub open_orders : Dict String ℤ
  pub asset_positions : Dict String ℤ
  pub asset_mark_prices : Dict String ℤ
  pub peak_equity : ℤ
  pub valuation_timestamp : Option String

-- `QuotePortfolio.__init__`
abbrev pub empty : String → String → QuotePortfolio
empty exchange quote_currency = record {
  exchange = exchange;
  quote_currency = quote_currency;
  total_cash = zero_dec;
  reserved_cash = zero_dec;
  open_orders = [];
  asset_positions = [];
  asset_mark_prices = [];
  peak_equity = zero_dec;
  valuation_timestamp = none;
}

-- The property `available_cash`.
abbrev pub available_cash : QuotePortfolio → ℤ
available_cash p = max_ℤ zero_dec (p.total_cash -ℤ p.reserved_cash)

-- `reserve_cash`
unfoldable pub reserve_cash : String → ℤ → QuotePortfolio → QuotePortfolio × Bool
reserve_cash order_uuid amount p =
    if leb_ℤ amount zero_dec
    then (p, true)
    else if ltb_ℤ (available_cash p) amount
    then (p, false)
    else (
      record p {
        reserved_cash = p.reserved_cash +ℤ amount;
        open_orders = insert String-discrete order_uuid amount p.open_orders;
      },
      true,
    )

-- The branches of `release_cash`, on what the order holds.
release_held : Option ℤ → String → QuotePortfolio → QuotePortfolio × ℤ
release_held none order_uuid p = (p, zero_dec)
release_held (some amount) order_uuid p = (
  record p {
    reserved_cash = max_ℤ zero_dec (p.reserved_cash -ℤ amount);
    open_orders = erase String-discrete order_uuid p.open_orders;
  },
  amount,
)

-- `release_cash`
unfoldable pub release_cash : String → QuotePortfolio → QuotePortfolio × ℤ
unfolding release_held
release_cash order_uuid p =
    release_held (lookup String-discrete order_uuid p.open_orders) order_uuid p

-- The loop of `reconcile_orders` over the orphaned orders, with the total so far.
unfoldable pub release_all : List String → ℤ → QuotePortfolio → QuotePortfolio × ℤ
release_all [] released_total p = (p, released_total)
release_all (uuid ∷ uuids) released_total p =
    let (p', amount) = release_cash uuid p in release_all uuids (released_total +ℤ amount) p'

-- `reconcile_orders`; the set of active orders is given by its membership test.
unfoldable pub reconcile_orders : (String → Bool) → QuotePortfolio → QuotePortfolio × ℤ
reconcile_orders is_active p =
    release_all (select (λ uuid. not (is_active uuid)) (keys p.open_orders)) zero_dec p

module _ (ctx : DecimalContext) where
  open ctx use {mul, div}

  abbrev notional : Dict String ℤ → Dict String ℤ → String → ℤ
  notional positions prices ticker =
      mul (or_else (lookup String-discrete ticker positions) zero_dec)
        (or_else (lookup String-discrete ticker prices) zero_dec)

  abbrev sum_notional : Dict String ℤ → Dict String ℤ → List String → ℤ → ℤ
  sum_notional positions prices [] acc = acc
  sum_notional positions prices (sym ∷ syms) acc =
      sum_notional positions prices syms (acc +ℤ notional positions prices sym)

  -- `get_asset_notional`
  abbrev pub get_asset_notional : String → QuotePortfolio → ℤ
  get_asset_notional ticker p = notional p.asset_positions p.asset_mark_prices ticker

  -- `get_total_holdings_notional`
  abbrev pub get_total_holdings_notional : QuotePortfolio → ℤ
  get_total_holdings_notional p =
      sum_notional p.asset_positions p.asset_mark_prices (keys p.asset_positions) zero_dec

  -- `get_total_equity`
  unfoldable pub get_total_equity : QuotePortfolio → ℤ
  get_total_equity p = p.total_cash +ℤ get_total_holdings_notional p

  -- `_refresh_peak_equity`
  unfoldable pub refresh_peak_equity : QuotePortfolio → QuotePortfolio
  refresh_peak_equity p = record p { peak_equity = max_ℤ (get_total_equity p) p.peak_equity }

  -- `update_cash`, `update_asset_position` and `update_asset_mark_price`
  unfoldable pub update_cash : ℤ → QuotePortfolio → QuotePortfolio
  unfolding refresh_peak_equity
  update_cash amount p = refresh_peak_equity (record p { total_cash = max_ℤ zero_dec amount })

  unfoldable pub update_asset_position : String → ℤ → QuotePortfolio → QuotePortfolio
  unfolding refresh_peak_equity
  update_asset_position ticker quantity p = refresh_peak_equity (record p {
    asset_positions = insert String-discrete ticker (max_ℤ zero_dec quantity) p.asset_positions;
  })

  unfoldable pub update_asset_mark_price : String → ℤ → QuotePortfolio → QuotePortfolio
  unfolding refresh_peak_equity
  update_asset_mark_price ticker price p = refresh_peak_equity (record p {
    asset_mark_prices = insert String-discrete ticker (max_ℤ zero_dec price) p.asset_mark_prices;
  })

  -- `get_drawdown`
  unfoldable pub get_drawdown : QuotePortfolio → ℤ
  get_drawdown p =
      if leb_ℤ p.peak_equity zero_dec
      then zero_dec
      else div (get_total_equity p -ℤ p.peak_equity) p.peak_equity

  -- `get_asset_concentration`
  unfoldable pub get_asset_concentration : String → QuotePortfolio → ℤ
  get_asset_concentration ticker p =
      let total_equity = get_total_equity p in
      if leb_ℤ total_equity zero_dec
      then zero_dec
      else div (get_asset_notional ticker p) total_equity
