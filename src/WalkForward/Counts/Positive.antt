-- ===== src/WalkForward/Counts/Positive.antt =====
-- src/walk_forward/generator/fold_generator.py: the sizes of the windows.
use Prim.Native.Nat.{◌/◌}
use ml_crypto_trading.Prelude.{ℕ, zero, suc, ◌*◌, ◌<◌, Option, none, some, List, length, arith}
use ml_crypto_trading.WalkForward.Folds.{at_least}
use ml_crypto_trading.WalkForward.Counts.{
  CountSpec, Counts, count_or, by_durations, by_default, counts_by_days, counts_by_candles,
  resolve_counts,
}

-- No size is zero.
pub record ArePositive (z : Counts) : Type 0 where
  pub train : 0 < z.train
  pub test : 0 < z.test
  pub step : 0 < z.step

count_or_pos : (o : Option ℕ) (n : ℕ) → 0 < n → 0 < count_or o n
count_or_pos none n h = h
count_or_pos (some zero) n h = h
count_or_pos (some (suc m)) n h = omega arith

at_least_pos : (low n : ℕ) → 0 < low → 0 < at_least low n
at_least_pos low n h = ground arith

by_durations-ArePositive :
    (step : Option ℕ) (train test per_day : ℕ) → ArePositive (by_durations step train test per_day)
by_durations-ArePositive step train test per_day = record {
  train = at_least_pos 2 (train * per_day) (omega arith);
  test = at_least_pos 2 (test * per_day) (omega arith);
  step = at_least_pos 1 (count_or step test * per_day) (omega arith);
}

by_default-ArePositive : (total : ℕ) → ArePositive (by_default total)
by_default-ArePositive total = record {
  train = at_least_pos 2 (total * 6 / 10) (omega arith);
  test = at_least_pos 2 (total * 2 / 10) (omega arith);
  step = at_least_pos 1 (at_least 2 (total * 2 / 10)) (omega arith);
}

counts_by_days-ArePositive :
    (train test step : Option ℕ) (ts : List ℕ) → ArePositive (counts_by_days train test step ts)
counts_by_days-ArePositive (some (suc a)) (some (suc b)) step ts =
    by_durations-ArePositive step (suc a) (suc b) _
counts_by_days-ArePositive _ _ step ts = by_default-ArePositive (length ts)

counts_by_candles-ArePositive :
    (train test step : Option ℕ) (other : Counts)
    → ArePositive other
    → ArePositive (counts_by_candles train test step other)
counts_by_candles-ArePositive (some (suc a)) (some (suc b)) step other h = record {
  train = omega arith;
  test = omega arith;
  step = count_or_pos step (suc b) (omega arith);
}
counts_by_candles-ArePositive _ _ step other h = h

pub resolve_counts-ArePositive :
    (spec : CountSpec) (ts : List ℕ) → ArePositive (resolve_counts spec ts)
unfolding resolve_counts
resolve_counts-ArePositive spec ts =
    counts_by_candles-ArePositive spec.train_candle_count spec.test_candle_count _ _
      (counts_by_days-ArePositive spec.train_duration_days spec.test_duration_days _ ts)
