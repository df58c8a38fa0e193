-- ===== src/Consensus/Strategy.antt =====
-- src/core/interfaces/trading_strategy.py, src/trading/strategies/models/strategy_schedule.py and
-- src/trading/strategies/strategy_weight_resolver.py. Weights are counted in a common unit, a time of
-- the day in microseconds since midnight, and a weekday from 0 for Monday. The conversion of a
-- timestamp to a time zone is an argument.
pub mod Windows
use ml_crypto_trading.Prelude.{
  ℕ, zero, suc, ◌+◌, ◌*◌, String, Bool, true, false, ◌&&◌, ◌||◌, Option, none, some, List, any, ltb,
  leb, ◌==◌, if◌then◌else◌,
}
use ml_crypto_trading.Prelude.Int.{ℤ, pos}
use ml_crypto_trading.Orders.{TradeAction}

pub record TradingWindow : Type 0 where
  pub days : List ℕ
  pub start_time : ℕ
  pub end_time : ℕ

pub record StrategySchedule : Type 0 where
  pub timezone : String
  pub windows : List TradingWindow

-- A strategy; `object_id` tells one object from another.
pub record TradingStrategy : Type 0 where
  pub object_id : ℕ
  pub name : String
  pub action : TradeAction
  pub ticker_symbols : Option (List String)
  pub weight : ℤ
  pub schedule : Option StrategySchedule
  pub enabled : Bool

-- The fields of a `datetime` that the resolver reads.
pub record Moment : Type 0 where
  pub weekday : ℕ
  pub hour : ℕ
  pub minute : ℕ
  pub second : ℕ
  pub microsecond : ℕ

-- `dt.time()`
abbrev pub time_of : Moment → ℕ
time_of dt = ((dt.hour * 60 + dt.minute) * 60 + dt.second) * 1000000 + dt.microsecond

-- `_is_end_of_day_bar`
unfoldable pub is_end_of_day_bar : Moment → Bool
is_end_of_day_bar dt =
    (dt.hour == 23 && leb 50 dt.minute) || (dt.hour == 0 && dt.minute == 0 && dt.second == 0)

abbrev pub is_day : ℕ → TradingWindow → Bool
is_day weekday window = any (λ day. day == weekday) window.days

-- `(weekday - 1) % 7`
abbrev pub previous_day : ℕ → ℕ
previous_day zero = 6
previous_day (suc day) = day

-- The end of `is_window_active`, for a moment that is not at the end of a day.
unfoldable pub is_inside : TradingWindow → Moment → Bool
is_inside window dt =
    let now = time_of dt in
    if ltb window.start_time window.end_time
    then is_day dt.weekday window && leb window.start_time now && ltb now window.end_time
    else ((is_day dt.weekday window && leb window.start_time now)
        || (is_day (previous_day dt.weekday) window && ltb now window.end_time))

abbrev pub ends_day : Option Moment → Bool
ends_day none = false
ends_day (some dt) = is_end_of_day_bar dt

abbrev day_of : Option Moment → Moment → ℕ
day_of none local_dt = local_dt.weekday
day_of (some utc_dt) local_dt = utc_dt.weekday

-- `is_window_active`
unfoldable pub is_window_active : TradingWindow → Moment → Option Moment → Bool
unfolding is_inside is_end_of_day_bar
is_window_active window local_dt utc_dt =
    if ends_day utc_dt
    then is_day (day_of utc_dt local_dt) window
    else if is_end_of_day_bar local_dt
    then is_day local_dt.weekday window
    else is_inside window local_dt

-- `utc_dt.astimezone(ZoneInfo(timezone))`, and `datetime.fromtimestamp(timestamp, tz=timezone.utc)`.
pub record Clock : Type 0 where
  pub at_utc : ℕ → Moment
  pub at_zone : String → ℕ → Moment

module _ (clock : Clock) where
  open clock use {at_utc, at_zone}

  -- `is_schedule_active`, on a timestamp
  unfoldable pub is_schedule_active : StrategySchedule → ℕ → Bool
  unfolding is_window_active
  is_schedule_active schedule timestamp =
      any
        (λ window.
          is_window_active window (at_zone schedule.timezone timestamp) (some (at_utc timestamp)))
        schedule.windows

  -- A positive weight, or none.
  abbrev pub positive : ℤ → Option ℕ
  positive (pos (suc w)) = some (suc w)
  positive _ = none

  abbrev pub scheduled : Option StrategySchedule → ℕ → Bool
  scheduled none timestamp = true
  scheduled (some schedule) timestamp = is_schedule_active schedule timestamp

  abbrev weight_if : Option ℕ → Bool → ℕ
  weight_if none active = 0
  weight_if (some w) active = if active then w else 0

  -- `resolve_effective_weight`; a schedule without windows is never active.
  unfoldable pub resolve_effective_weight : TradingStrategy → ℕ → ℕ
  unfolding is_schedule_active
  resolve_effective_weight strategy timestamp =
      if strategy.enabled
      then weight_if (positive strategy.weight) (scheduled strategy.schedule timestamp)
      else 0
