-- ===== src/Expressions/Windows.antt =====
-- src/core/expressions/rolling_window_evaluator.py. The numbers of a candle are compared only, and are
-- counted in a common unit.
pub mod Bounds
use ml_crypto_trading.Prelude.{
  ℕ, zero, suc, ◌-◌, String, Bool, false, ◌&&◌, ◌||◌, ◌⊎◌, inl, inr, Option, none, some, List, [],
  ◌∷◌, map, length, holds, ltb, if◌then◌else◌,
}
use ml_crypto_trading.Prelude.Text.{String-discrete}
use ml_crypto_trading.Prelude.Int.{ℤ, pos, max_ℤ, min_ℤ, leb_ℤ, ltb_ℤ}
use ml_crypto_trading.Prelude.Decimal.{zero_dec}
use ml_crypto_trading.Expressions.Syntax.{Value, integer}

pub record Candle : Type 0 where
  pub start_time : ℤ
  pub open_price : ℤ
  pub high : ℤ
  pub low : ℤ
  pub close : ℤ
  pub volume : ℤ

pub record MarketData : Type 0 where
  pub timestamp : Option ℤ
  pub close_price : ℤ
  pub high_price : ℤ
  pub low_price : ℤ

pub data WindowError : Type 0 where
  bad_period unsupported_series : WindowError

abbrev is_equal : ℤ → ℤ → Bool
is_equal a b = leb_ℤ a b && leb_ℤ b a

-- `timestamp is not None and timestamp > 0 and start_time >= timestamp`
abbrev is_current : Option ℤ → ℤ → Bool
is_current none start_time = false
is_current (some t) start_time = ltb_ℤ zero_dec t && leb_ℤ t start_time

-- `_is_active_candle`
abbrev pub is_active_candle : Option MarketData → Candle → Bool
is_active_candle none c = false
is_active_candle (some m) c =
    is_current m.timestamp c.start_time
    || (is_equal c.close m.close_price
        && is_equal c.high m.high_price
        && is_equal c.low m.low_price)

-- `_get_prior_candles`
abbrev pub get_prior_candles : Option MarketData → List Candle → List Candle
get_prior_candles market [] = []
get_prior_candles market (c ∷ []) = if is_active_candle market c then [] else c ∷ []
get_prior_candles market (c ∷ d ∷ candles) = c ∷ get_prior_candles market (d ∷ candles)

-- `_validate_period`: a positive integer.
abbrev pub validate_period : Value → Option ℕ
validate_period (integer (pos (suc n))) = some (suc n)
validate_period _ = none

-- `_SERIES_EXTRACTORS` with `_get_series_extractor`
abbrev pub extractors : List (String × (Candle → ℤ))
extractors =
    ("high", λ c. c.high)
    ∷ ("low", λ c. c.low)
    ∷ ("close", λ c. c.close)
    ∷ ("open", λ c. c.open_price)
    ∷ ("volume", λ c. c.volume)
    ∷ []

abbrev pub find_extractor : String → List (String × (Candle → ℤ)) → Option (Candle → ℤ)
find_extractor series [] = none
find_extractor series ((name, f) ∷ rest) =
    let found = find_extractor series rest in
    if holds (String-discrete name series) then some f else found

-- `candles[-period:]`, for at least `period` candles.
abbrev pub drop : ℕ → List Candle → List Candle
drop zero candles = candles
drop (suc n) [] = []
drop (suc n) (c ∷ candles) = drop n candles

abbrev pub window_of : ℕ → List Candle → Option (List Candle)
window_of period prior =
    if ltb (length prior) period then none else some (drop (length prior - period) prior)

-- `_resolve_window_values`
abbrev values_in : Option (Candle → ℤ) → Option (List Candle) → WindowError ⊎ Option (List ℤ)
values_in none w = inl unsupported_series
values_in (some f) none = inr none
values_in (some f) (some w) = inr (some (map f w))

abbrev with_period : Option ℕ → Option (Candle → ℤ) → List Candle → WindowError ⊎ Option (List ℤ)
with_period none f prior = inl bad_period
with_period (some period) f prior = values_in f (window_of period prior)

unfoldable pub resolve_window_values :
    Option MarketData → List Candle → String → Value → WindowError ⊎ Option (List ℤ)
resolve_window_values market candles series period =
    with_period (validate_period period) (find_extractor series extractors)
      (get_prior_candles market candles)

-- `max(values)` and `min(values)` of a list that is not empty.
abbrev pub max_of : ℤ → List ℤ → ℤ
max_of a [] = a
max_of a (b ∷ bs) = max_of (max_ℤ a b) bs

abbrev pub min_of : ℤ → List ℤ → ℤ
min_of a [] = a
min_of a (b ∷ bs) = min_of (min_ℤ a b) bs

-- A window's period is positive, so that its list of values is never empty.
abbrev pub fold_values : (ℤ → List ℤ → ℤ) → WindowError ⊎ Option (List ℤ) → WindowError ⊎ Option ℤ
fold_values f (inl e) = inl e
fold_values f (inr none) = inr none
fold_values f (inr (some [])) = inr none
fold_values f (inr (some (v ∷ vs))) = inr (some (f v vs))

-- `highest` and `lowest`
unfoldable pub highest : Option MarketData → List Candle → String → Value → WindowError ⊎ Option ℤ
unfolding resolve_window_values
highest market candles series period =
    fold_values max_of (resolve_window_values market candles series period)

unfoldable pub lowest : Option MarketData → List Candle → String → Value → WindowError ⊎ Option ℤ
unfolding resolve_window_values
lowest market candles series period =
    fold_values min_of (resolve_window_values market candles series period)
