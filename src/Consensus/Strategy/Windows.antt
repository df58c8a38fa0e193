-- ===== src/Consensus/Strategy/Windows.antt =====
-- src/trading/strategies/strategy_weight_resolver.py: a trading window against the rest of the day.
use ml_crypto_trading.Prelude.{
  Option, ℕ, zero, suc, true, false, not, ◌&&◌, ◌||◌, List, [], ◌∷◌, ltb, leb, arith, ◌≡◌, ◌≢◌, ◌<◌,
  ◌⊎◌, inl, inr, if◌then◌else◌,
}
use ml_crypto_trading.Consensus.Strategy.{
  TradingWindow, Moment, is_day, is_inside, is_window_active, is_end_of_day_bar, ends_day, time_of,
  previous_day,
}

abbrev pub every_day : List ℕ
every_day = 0 ∷ 1 ∷ 2 ∷ 3 ∷ 4 ∷ 5 ∷ 6 ∷ []

abbrev pub daily : ℕ → ℕ → TradingWindow
daily start_time end_time = record {
  days = every_day;
  start_time = start_time;
  end_time = end_time;
}

is_day-daily : (day start end : ℕ) → day < 7 → is_day day (daily start end) ≡ true
is_day-daily day start end h = ground arith

trichotomy : (a b : ℕ) → ((a < b) ⊎ (a ≡ b)) ⊎ (b < a)
trichotomy a b = ground arith

previous_day_lt : (day : ℕ) → day < 7 → previous_day day < 7
previous_day_lt zero h = omega arith
previous_day_lt (suc day) h = omega arith

window_complement :
    (start end now : ℕ)
    → start ≢ end
    → (if ltb start end then leb start now && ltb now end else (leb start now || ltb now end))
      ≡ not (if ltb end start then leb end now && ltb now start else (leb end now || ltb now start))
window_complement start end now h = elim (trichotomy start end) [
  | inl (inl below) ↦ ground (arith, below)
  | inl (inr same) ↦ absurd (h same)
  | inr above ↦ ground (arith, above)
]

-- For two different times of the day, a window from the one to the other on every day and a window
-- back from the other to the one are never active together and never both inactive, at any moment that
-- is at the end of a day neither in the window's time zone nor in UTC, if that is given.
is_window_active-daily :
    (start end : ℕ) (dt : Moment) (utc_dt : Option Moment)
    → start ≢ end
    → dt.weekday < 7
    → ends_day utc_dt ≡ false
    → is_end_of_day_bar dt ≡ false
    → is_window_active (daily start end) dt utc_dt
      ≡ not (is_window_active (daily end start) dt utc_dt)
unfolding is_window_active is_inside
is_window_active-daily start end dt utc_dt h d u e =
    rw
      (
        u,
        e,
        is_day-daily dt.weekday start end d,
        is_day-daily (previous_day dt.weekday) start end (previous_day_lt dt.weekday d),
      )
      (window_complement start end (time_of dt) h)
