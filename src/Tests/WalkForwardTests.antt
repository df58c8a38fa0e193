-- ===== src/Tests/WalkForwardTests.antt =====
-- The theorems about src/walk_forward at concrete inputs.
use ml_crypto_trading.Prelude.{ℕ, none, some, List, [], ◌∷◌, All, ◌≡◌, arith}
use ml_crypto_trading.WalkForward.Folds.{WalkForwardFold, rolling, generate_folds}
use ml_crypto_trading.WalkForward.Folds.Numbers.{spec_of}
use ml_crypto_trading.WalkForward.Folds.Counted.{generate_folds-IsOrdered}
use ml_crypto_trading.WalkForward.Counts.{CountSpec}
use ml_crypto_trading.WalkForward.Counts.Ordered.{IsOrdered}

abbrev three_and_two : CountSpec
three_and_two = record {
  train_duration_days = none;
  train_candle_count = some 3;
  test_duration_days = none;
  test_candle_count = some 2;
  step_size_days = none;
  step_size_candles = none;
  warmup_candle_count = 1;
  window_mode = rolling;
}

abbrev history : List ℕ
history = 10 ∷ 20 ∷ 30 ∷ 40 ∷ 50 ∷ 60 ∷ 70 ∷ 80 ∷ []

generate_folds-IsOrdered_example :
    (folds : List WalkForwardFold) × (generate_folds (spec_of three_and_two) history ≡ some folds)
    × All IsOrdered folds
generate_folds-IsOrdered_example = generate_folds-IsOrdered three_and_two history (omega arith)
