-- ===== src/WalkForward/Folds/Numbers.antt =====
-- src/walk_forward/generator/fold_generator.py: integers that are not negative, and the sizes of windows
-- whose numbers are not negative.
use mathlib.Core.Option as Option
use ml_crypto_trading.Prelude.{
  ℕ, zero, suc, ◌+◌, ◌-◌, ◌*◌, ◌≤◌, Option, none, some, List, or_else, ◌≡◌, refl, ap, ◌∙◌, arith,
}
use ml_crypto_trading.Prelude.Int.{pos, ◌+ℤ◌, ◌-ℤ◌, ◌*ℤ◌, max_ℤ}
use ml_crypto_trading.WalkForward.Folds.{
  WalkForwardWindowSpec, back_by, at_least, Sizes, nonzero, by_candles, by_days, sizes_by_days,
  sizes_by_candles, resolve_window_sizes,
}
use ml_crypto_trading.WalkForward.Counts.{
  CountSpec, Counts, count_or, by_counts, by_durations, counts_by_days, counts_by_candles,
  resolve_counts,
}

-- The specification with these numbers, none of which is negative.
abbrev pub spec_of : CountSpec → WalkForwardWindowSpec
spec_of c = record {
  train_duration_days = Option.map pos c.train_duration_days;
  train_candle_count = Option.map pos c.train_candle_count;
  test_duration_days = Option.map pos c.test_duration_days;
  test_candle_count = Option.map pos c.test_candle_count;
  step_size_days = Option.map pos c.step_size_days;
  step_size_candles = Option.map pos c.step_size_candles;
  warmup_candle_count = pos c.warmup_candle_count;
  window_mode = c.window_mode;
}

abbrev pub sizes_of : Counts → Sizes
sizes_of z = record { train = pos z.train; test = pos z.test; step = pos z.step }

pub max_pos : (low n : ℕ) → max_ℤ (pos low) (pos n) ≡ pos (at_least low n)
unfolding max_ℤ
max_pos low n = ground arith

pub mul_pos : (a b : ℕ) → pos a *ℤ pos b ≡ pos (a * b)
unfolding ◌*ℤ◌
mul_pos a b = ground arith

pub add_pos : (a b : ℕ) → pos a +ℤ pos b ≡ pos (a + b)
unfolding ◌+ℤ◌
add_pos a b = ground arith

pub sub_pos : (a b : ℕ) → b ≤ a → pos a -ℤ pos b ≡ pos (a - b)
unfolding ◌-ℤ◌
sub_pos a b h = ground arith

pub back_by_pos : (a b : ℕ) → back_by (pos a) (pos b) ≡ pos (a - b)
unfolding max_ℤ ◌-ℤ◌
back_by_pos a b = ground arith

pub step_pos :
    (step : Option ℕ) (test : ℕ)
    → or_else (nonzero (Option.map pos step)) (pos test) ≡ pos (count_or step test)
step_pos none test = refl
step_pos (some zero) test = refl
step_pos (some (suc n)) test = refl

pub by_candles_pos :
    (step : Option ℕ) (train test : ℕ)
    → by_candles (Option.map pos step) (pos train) (pos test) ≡ sizes_of (by_counts step train test)
by_candles_pos step train test =
    ap (λ n. record { train = pos train; test = pos test; step = n }) (step_pos step test)

pub at_least_pos : (low a b : ℕ) → max_ℤ (pos low) (pos a *ℤ pos b) ≡ pos (at_least low (a * b))
at_least_pos low a b = ap (max_ℤ (pos low)) (mul_pos a b) ∙ max_pos low (a * b)

pub by_days_pos :
    (step : Option ℕ) (train test per_day : ℕ)
    → by_days (Option.map pos step) (pos train) (pos test) (pos per_day)
      ≡ sizes_of (by_durations step train test per_day)
by_days_pos step train test per_day = λ i. record {
  train = at_least_pos 2 train per_day i;
  test = at_least_pos 2 test per_day i;
  step =
      (ap (λ n. max_ℤ (pos 1) (n *ℤ pos per_day)) (step_pos step test)
          ∙ at_least_pos 1 (count_or step test) per_day)
        i;
}

pub sizes_by_days_pos :
    (train test step : Option ℕ) (ts : List ℕ)
    → sizes_by_days
        (nonzero (Option.map pos train))
        (nonzero (Option.map pos test))
        (Option.map pos step)
        ts
      ≡ sizes_of (counts_by_days train test step ts)
sizes_by_days_pos (some (suc a)) (some (suc b)) step ts = by_days_pos step (suc a) (suc b) _
sizes_by_days_pos (some (suc a)) (some zero) step ts = refl
sizes_by_days_pos (some (suc a)) none step ts = refl
sizes_by_days_pos (some zero) test step ts = refl
sizes_by_days_pos none test step ts = refl

pub sizes_by_candles_pos :
    (train test step : Option ℕ) (other : Counts) (other' : Sizes)
    → other' ≡ sizes_of other
    → sizes_by_candles
        (nonzero (Option.map pos train))
        (nonzero (Option.map pos test))
        (Option.map pos step)
        other'
      ≡ sizes_of (counts_by_candles train test step other)
sizes_by_candles_pos (some (suc a)) (some (suc b)) step other other' e =
    by_candles_pos step (suc a) (suc b)
sizes_by_candles_pos (some (suc a)) (some zero) step other other' e = e
sizes_by_candles_pos (some (suc a)) none step other other' e = e
sizes_by_candles_pos (some zero) test step other other' e = e
sizes_by_candles_pos none test step other other' e = e

pub resolve_window_sizes_pos :
    (c : CountSpec) (ts : List ℕ)
    → resolve_window_sizes (spec_of c) ts ≡ sizes_of (resolve_counts c ts)
unfolding resolve_window_sizes resolve_counts
resolve_window_sizes_pos c ts =
    sizes_by_candles_pos c.train_candle_count c.test_candle_count c.step_size_candles _ _
      (sizes_by_days_pos c.train_duration_days c.test_duration_days c.step_size_days ts)
