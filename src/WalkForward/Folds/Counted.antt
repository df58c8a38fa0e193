-- ===== src/WalkForward/Folds/Counted.antt =====
-- src/walk_forward/generator/fold_generator.py on windows whose numbers are not negative: which folds the
-- loop makes, and their order.
use ml_crypto_trading.Prelude.{ℕ, some, List, All, ◌≡◌, ◌∙◌}
use ml_crypto_trading.WalkForward.Folds.{WalkForwardFold, generate_folds}
use ml_crypto_trading.WalkForward.Counts.{CountSpec}
use ml_crypto_trading.WalkForward.Counts.Ordered.{IsIncreasing, IsOrdered, counted_folds-IsOrdered}
use ml_crypto_trading.WalkForward.Folds.Numbers.{spec_of}
use ml_crypto_trading.WalkForward.Folds.Embedding.{generate_folds_pos}

-- If no number of the window is negative and every timestamp stands for a later instant than the one
-- before it, the generator returns, and in every fold the training window ends before the test window
-- starts, no window ends before it starts, and the warm-ups lie before the windows that they are for: no
-- fold is tested on what it was trained on.
pub generate_folds-IsOrdered :
    (c : CountSpec) (ts : List ℕ)
    → IsIncreasing ts
    → (folds : List WalkForwardFold) × (generate_folds (spec_of c) ts ≡ some folds)
      × All IsOrdered folds
generate_folds-IsOrdered c ts inc =
    let (folds, e, ordered) = counted_folds-IsOrdered c ts inc in
    (folds, generate_folds_pos c ts ∙ e, ordered)
