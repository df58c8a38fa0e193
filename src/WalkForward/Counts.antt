-- ===== src/WalkForward/Counts.antt =====
-- src/walk_forward/generator/fold_generator.py on windows whose numbers are not negative: what its
-- functions come to on natural numbers, where no index is negative and `-` stops at 0 as `max(0, ...)`
-- does.
pub mod Positive
pub mod Windows
pub mod Ordered
use ml_crypto_trading.Prelude.{
  ℕ, zero, suc, ◌+◌, ◌-◌, ◌*◌, Option, none, some, List, [], leb, ltb, length, if◌then◌else◌,
}
use Prim.Native.Nat.{◌/◌}
use ml_crypto_trading.Prelude.Rounding.{round_half_even}
use ml_crypto_trading.WalkForward.Folds.{
  WindowMode, rolling, expanding, WalkForwardFold, get_elem?, known, known_if,
  estimate_candle_interval, at_least, add_fold,
}

pub record CountSpec : Type 0 where
  pub train_duration_days : Option ℕ
  pub train_candle_count : Option ℕ
  pub test_duration_days : Option ℕ
  pub test_candle_count : Option ℕ
  pub step_size_days : Option ℕ
  pub step_size_candles : Option ℕ
  pub warmup_candle_count : ℕ
  pub window_mode : WindowMode

-- The fold of these indices.
unfoldable pub counted_fold : ℕ → List ℕ → ℕ → ℕ → ℕ → ℕ → ℕ → Option WalkForwardFold
counted_fold index ts train_start train_end test_start test_end warmup =
    let start = train_start - warmup in
    let has_warmup = ltb start train_start in
    let test_warmup = test_start - warmup in
    known_if has_warmup (get_elem? ts start) (λ warmup_start.
      known_if has_warmup (get_elem? ts (train_start - 1)) (λ warmup_end.
        known_if (ltb test_warmup test_start) (get_elem? ts test_warmup) (λ test_warmup_start.
          known (get_elem? ts train_start) (λ a. known (get_elem? ts train_end) (λ b.
            known (get_elem? ts test_start) (λ c. known (get_elem? ts test_end) (λ d. some (record {
              fold_index = index;
              warmup_start = warmup_start;
              warmup_end = warmup_end;
              train_start = a;
              train_end = b;
              test_start = c;
              test_end = d;
              test_warmup_start = test_warmup_start;
            }))))))))

pub record Counts : Type 0 where
  pub train : ℕ
  pub test : ℕ
  pub step : ℕ

-- `x or default` on an optional count
abbrev pub count_or : Option ℕ → ℕ → ℕ
count_or none default = default
count_or (some zero) default = default
count_or (some (suc n)) default = suc n

abbrev pub by_counts : Option ℕ → ℕ → ℕ → Counts
by_counts step train test = record { train = train; test = test; step = count_or step test }

abbrev pub by_durations : Option ℕ → ℕ → ℕ → ℕ → Counts
by_durations step train test per_day = record {
  train = at_least 2 (train * per_day);
  test = at_least 2 (test * per_day);
  step = at_least 1 (count_or step test * per_day);
}

-- The default: 60% of the candles for the training, 20% for the test.
abbrev pub by_default : ℕ → Counts
by_default total =
    let test = at_least 2 (total * 2 / 10) in
    record { train = at_least 2 (total * 6 / 10); test = test; step = at_least 1 test }

abbrev pub counts_by_days : Option ℕ → Option ℕ → Option ℕ → List ℕ → Counts
counts_by_days (some (suc train)) (some (suc test)) step ts =
    by_durations step (suc train) (suc test)
      (at_least 1 (round_half_even 86_400_000 (estimate_candle_interval ts)))
counts_by_days _ _ step ts = by_default (length ts)

abbrev pub counts_by_candles : Option ℕ → Option ℕ → Option ℕ → Counts → Counts
counts_by_candles (some (suc train)) (some (suc test)) step other =
    by_counts step (suc train) (suc test)
counts_by_candles _ _ step other = other

unfoldable pub resolve_counts : CountSpec → List ℕ → Counts
unfolding estimate_candle_interval
resolve_counts spec ts =
    counts_by_candles spec.train_candle_count spec.test_candle_count spec.step_size_candles
      (counts_by_days spec.train_duration_days spec.test_duration_days spec.step_size_days ts)

abbrev pub train_start_at : WindowMode → ℕ → ℕ
train_start_at rolling offset = offset
train_start_at expanding offset = 0

-- The fold of one round of the loop.
abbrev pub counted_fold_at : CountSpec → List ℕ → Counts → ℕ → ℕ → Option WalkForwardFold
counted_fold_at spec ts z index offset =
    counted_fold index ts (train_start_at spec.window_mode offset) (offset + z.train - 1)
      (offset + z.train) (offset + z.train + z.test - 1) spec.warmup_candle_count

-- The loop of `counted_folds`, for so many rounds.
unfoldable pub counted_from :
    CountSpec → List ℕ → Counts → ℕ → ℕ → ℕ → Option (List WalkForwardFold)
unfolding counted_fold
counted_from spec ts z zero index offset = some []
counted_from spec ts z (suc rounds) index offset =
    let rest = counted_from spec ts z rounds (index + 1) (offset + z.step) in
    if leb (offset + z.train + z.test) (length ts)
    then add_fold (counted_fold_at spec ts z index offset) rest
    else some []

-- `counted_folds`; as every round moves on by a step, there are no more rounds than timestamps.
unfoldable pub counted_folds : CountSpec → List ℕ → Option (List WalkForwardFold)
unfolding resolve_counts counted_from
counted_folds spec ts =
    let z = resolve_counts spec ts in
    if ltb (length ts) 4
    then some []
    else if ltb (length ts) (z.train + z.test)
    then some []
    else counted_from spec ts z (suc (length ts + z.train + z.test)) 0 0
