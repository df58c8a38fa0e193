-- ===== src/WalkForward/Folds.antt =====
-- src/walk_forward/generator/fold_generator.py and the window of api/interfaces/walk_forward.py. Timestamps
-- are not negative, an instant is a number of milliseconds, and `none` in front of a fold
-- stands for an `IndexError`. A quotient of floats that is rounded is rounded half to even.
pub mod Numbers
pub mod Embedding
pub mod Counted
use Prim.Native.Nat.{◌/◌}
use ml_crypto_trading.Prelude.{
  ℕ, zero, suc, ◌+◌, ◌-◌, ◌*◌, Option, none, some, List, [], ◌∷◌, Bool, true, false, leb, ltb,
  length, or_else, if◌then◌else◌,
}
use ml_crypto_trading.Prelude.Int.{ℤ, pos, negsuc, ◌+ℤ◌, ◌-ℤ◌, ◌*ℤ◌, max_ℤ, ltb_ℤ, leb_ℤ}
use ml_crypto_trading.Prelude.Rounding.{round_half_even}

pub data WindowMode : Type 0 where
  rolling expanding : WindowMode

pub record WalkForwardWindowSpec : Type 0 where
  pub train_duration_days : Option ℤ
  pub train_candle_count : Option ℤ
  pub test_duration_days : Option ℤ
  pub test_candle_count : Option ℤ
  pub step_size_days : Option ℤ
  pub step_size_candles : Option ℤ
  pub warmup_candle_count : ℤ
  pub window_mode : WindowMode

pub record WalkForwardFold : Type 0 where
  pub fold_index : ℕ
  pub warmup_start : Option ℕ
  pub warmup_end : Option ℕ
  pub train_start : ℕ
  pub train_end : ℕ
  pub test_start : ℕ
  pub test_end : ℕ
  pub test_warmup_start : Option ℕ

-- `timestamps[i]`
abbrev pub get_elem? {ℓ} : {A : Type ℓ} → List A → ℕ → Option A
get_elem? [] i = none
get_elem? (t ∷ ts) zero = some t
get_elem? (t ∷ ts) (suc i) = get_elem? ts i

-- The bound above which a number counts milliseconds.
abbrev unit_limit : ℕ
unit_limit = 100_000_000_000

-- `_timestamp_to_datetime`
abbrev pub to_instant : ℕ → ℕ
to_instant timestamp = if ltb unit_limit timestamp then timestamp else timestamp * 1_000

abbrev pub known : Option ℕ → (ℕ → Option WalkForwardFold) → Option WalkForwardFold
known none next = none
known (some timestamp) next = next (to_instant timestamp)

-- An instant that is left out unless the test holds.
abbrev pub known_if : Bool → Option ℕ → (Option ℕ → Option WalkForwardFold) → Option WalkForwardFold
known_if false t next = next none
known_if true none next = none
known_if true (some timestamp) next = next (some (to_instant timestamp))

-- `timestamps[i]` of any index: a negative one counts from the end.
abbrev pub get_index : List ℕ → ℤ → Option ℕ
get_index ts (pos i) = get_elem? ts i
get_index ts (negsuc i) = if leb (suc i) (length ts) then get_elem? ts (length ts - suc i) else none

-- `max(0, a - b)`
abbrev pub back_by : ℤ → ℤ → ℤ
back_by a b = max_ℤ (pos 0) (a -ℤ b)

-- `_create_fold`
unfoldable pub create_fold : ℕ → List ℕ → ℤ → ℤ → ℤ → ℤ → ℤ → Option WalkForwardFold
create_fold index ts train_start train_end test_start test_end warmup =
    let start = back_by train_start warmup in
    let has_warmup = ltb_ℤ start train_start in
    let test_warmup = back_by test_start warmup in
    known_if has_warmup (get_index ts start) (λ warmup_start.
      known_if has_warmup (get_index ts (train_start -ℤ pos 1)) (λ warmup_end.
        known_if (ltb_ℤ test_warmup test_start) (get_index ts test_warmup) (λ test_warmup_start.
          known (get_index ts train_start) (λ a. known (get_index ts train_end) (λ b.
            known (get_index ts test_start) (λ c. known (get_index ts test_end) (λ d. some (record {
              fold_index = index;
              warmup_start = warmup_start;
              warmup_end = warmup_end;
              train_start = a;
              train_end = b;
              test_start = c;
              test_end = d;
              test_warmup_start = test_warmup_start;
            }))))))))

-- A difference of two timestamps, in thousandths of what is taken for a second.
abbrev milli_seconds : ℕ → ℕ
milli_seconds diff = if ltb unit_limit diff then diff else diff * 1_000

-- `abs(a - b)`
abbrev distance : ℕ → ℕ → ℕ
distance a b = (a - b) + (b - a)

-- The positive differences of the first 51 timestamps.
abbrev pub differences : ℕ → List ℕ → List ℕ
differences zero ts = []
differences (suc n) [] = []
differences (suc n) (a ∷ []) = []
differences (suc n) (a ∷ b ∷ ts) =
    let d = milli_seconds (distance b a) in
    let rest = differences n (b ∷ ts) in if ltb 0 d then d ∷ rest else rest

abbrev insert_sorted : ℕ → List ℕ → List ℕ
insert_sorted d [] = d ∷ []
insert_sorted d (e ∷ rest) =
    let more = insert_sorted d rest in if leb d e then d ∷ e ∷ rest else e ∷ more

-- `diffs.sort()`
abbrev pub sort : List ℕ → List ℕ
sort [] = []
sort (d ∷ rest) = insert_sorted d (sort rest)

abbrev pub or_day : Option ℕ → ℕ
or_day none = 86_400_000
or_day (some d) = d

-- `_estimate_candle_interval_seconds`, in thousandths
unfoldable pub estimate_candle_interval : List ℕ → ℕ
estimate_candle_interval ts =
    let diffs = sort (differences 50 ts) in or_day (get_elem? diffs (length diffs / 2))

abbrev pub at_least : ℕ → ℕ → ℕ
at_least low n = if ltb n low then low else n

pub record Sizes : Type 0 where
  pub train : ℤ
  pub test : ℤ
  pub step : ℤ

-- An optional number that is neither missing nor 0, as Python's `and` and `or` see it.
abbrev pub nonzero : Option ℤ → Option ℤ
nonzero none = none
nonzero (some (pos zero)) = none
nonzero (some (pos (suc n))) = some (pos (suc n))
nonzero (some (negsuc n)) = some (negsuc n)

abbrev pub by_candles : Option ℤ → ℤ → ℤ → Sizes
by_candles step train test = record {
  train = train;
  test = test;
  step = or_else (nonzero step) test;
}

-- `max(2, train)` and the like, of numbers of days.
abbrev pub by_days : Option ℤ → ℤ → ℤ → ℤ → Sizes
by_days step train test per_day = record {
  train = max_ℤ (pos 2) (train *ℤ per_day);
  test = max_ℤ (pos 2) (test *ℤ per_day);
  step = max_ℤ (pos 1) (or_else (nonzero step) test *ℤ per_day);
}

-- The default: 60% of the candles for the training, 20% for the test.
abbrev pub by_share : ℕ → Sizes
by_share total =
    let test = at_least 2 (total * 2 / 10) in
    record {
      train = pos (at_least 2 (total * 6 / 10));
      test = pos test;
      step = pos (at_least 1 test);
    }

abbrev pub sizes_by_days : Option ℤ → Option ℤ → Option ℤ → List ℕ → Sizes
sizes_by_days (some train) (some test) step ts =
    by_days step train test
      (pos (at_least 1 (round_half_even 86_400_000 (estimate_candle_interval ts))))
sizes_by_days _ _ step ts = by_share (length ts)

abbrev pub sizes_by_candles : Option ℤ → Option ℤ → Option ℤ → Sizes → Sizes
sizes_by_candles (some train) (some test) step other = by_candles step train test
sizes_by_candles _ _ step other = other

-- `_resolve_window_sizes`
unfoldable pub resolve_window_sizes : WalkForwardWindowSpec → List ℕ → Sizes
unfolding estimate_candle_interval
resolve_window_sizes spec ts =
    sizes_by_candles (nonzero spec.train_candle_count) (nonzero spec.test_candle_count)
      spec.step_size_candles
      (sizes_by_days (nonzero spec.train_duration_days) (nonzero spec.test_duration_days)
        spec.step_size_days ts)

abbrev pub train_start_of : WindowMode → ℤ → ℤ
train_start_of rolling offset = offset
train_start_of expanding offset = pos 0

-- The fold of one round of the loop.
abbrev pub fold_at : WalkForwardWindowSpec → List ℕ → Sizes → ℕ → ℤ → Option WalkForwardFold
fold_at spec ts z index offset =
    create_fold index ts (train_start_of spec.window_mode offset) (offset +ℤ z.train -ℤ pos 1)
      (offset +ℤ z.train) (offset +ℤ z.train +ℤ z.test -ℤ pos 1)
      (max_ℤ (pos 0) spec.warmup_candle_count)

abbrev pub add_fold :
    Option WalkForwardFold → Option (List WalkForwardFold) → Option (List WalkForwardFold)
add_fold (some fold) (some rest) = some (fold ∷ rest)
add_fold _ _ = none

-- The loop of `generate_folds`, for so many rounds. A loop that is not at its end after them has an index
-- that leaves the history, and so raises an `IndexError` sooner or later.
unfoldable pub folds_from :
    WalkForwardWindowSpec → List ℕ → Sizes → ℕ → ℕ → ℤ → Option (List WalkForwardFold)
unfolding create_fold
folds_from spec ts z zero index offset = none
folds_from spec ts z (suc rounds) index offset =
    let rest = folds_from spec ts z rounds (index + 1) (offset +ℤ z.step) in
    if leb_ℤ (offset +ℤ z.train +ℤ z.test) (pos (length ts))
    then add_fold (fold_at spec ts z index offset) rest
    else some []

abbrev pub magnitude : ℤ → ℕ
magnitude (pos n) = n
magnitude (negsuc n) = suc n

-- `generate_folds`. With a positive step, the offset is past the last window after as many rounds as
-- there are timestamps and candles in the two windows.
unfoldable pub generate_folds : WalkForwardWindowSpec → List ℕ → Option (List WalkForwardFold)
unfolding resolve_window_sizes folds_from
generate_folds spec ts =
    let z = resolve_window_sizes spec ts in
    if ltb (length ts) 4
    then some []
    else if ltb_ℤ (pos (length ts)) (z.train +ℤ z.test)
    then some []
    else folds_from spec ts z (suc (length ts + magnitude z.train + magnitude z.test)) 0 (pos 0)
