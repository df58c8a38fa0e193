-- ===== src/WalkForward/Folds/Embedding.antt =====
-- src/walk_forward/generator/fold_generator.py on windows whose numbers are not negative: the generator
-- comes to the one on natural numbers.
use ml_crypto_trading.Prelude.{
  ℕ, zero, suc, ◌+◌, ◌-◌, ◌≤◌, ◌<◌, Option, some, List, [], Bool, true, false, leb, ltb, length,
  Bool-cases, inl, inr, if_else, if◌then◌else◌, ◌≡◌, refl, sym, ap, ◌∙◌, arith,
}
use ml_crypto_trading.Prelude.Int.{pos, ◌+ℤ◌, ◌-ℤ◌, max_ℤ, ltb_ℤ, leb_ℤ}
use ml_crypto_trading.WalkForward.Folds.{
  WalkForwardWindowSpec, WalkForwardFold, WindowMode, rolling, expanding, get_elem?, known,
  known_if, get_index, create_fold, Sizes, train_start_of, fold_at, add_fold, folds_from, magnitude,
  generate_folds,
}
use ml_crypto_trading.WalkForward.Counts.{
  CountSpec, Counts, counted_fold, resolve_counts, train_start_at, counted_fold_at, counted_from,
  counted_folds,
}
use ml_crypto_trading.WalkForward.Counts.Positive.{ArePositive, resolve_counts-ArePositive}
use ml_crypto_trading.WalkForward.Folds.Numbers.{
  spec_of, sizes_of, max_pos, add_pos, sub_pos, back_by_pos, resolve_window_sizes_pos,
}

unread :
    (b : Bool) (o o' : Option ℕ) (next : Option ℕ → Option WalkForwardFold)
    → b ≡ false
    → known_if b o next ≡ known_if b o' next
unread false o o' next h = refl
unread true o o' next h = cc

-- The index before the training window is read only if there is one.
before_pos :
    (ts : List ℕ) (a w : ℕ) (next : Option ℕ → Option WalkForwardFold)
    → known_if (ltb (a - w) a) (get_index ts (pos a -ℤ pos 1)) next
      ≡ known_if (ltb (a - w) a) (get_elem? ts (a - 1)) next
before_pos ts zero w next = unread (ltb (0 - w) 0) _ _ next (ground arith)
before_pos ts (suc a) w next =
    ap (λ i. known_if (ltb (suc a - w) (suc a)) (get_index ts i) next)
      (sub_pos (suc a) 1 (omega arith))

ltb_pos : (a b : ℕ) → ltb_ℤ (pos a) (pos b) ≡ ltb a b
ltb_pos a b = ground arith

leb_pos : (a b : ℕ) → leb_ℤ (pos a) (pos b) ≡ leb a b
leb_pos a b = ground arith

-- The fold of `_create_fold`, once it is known whether there are warm-ups.
abbrev warmed :
    ℕ
    → List ℕ
    → Bool
    → Bool
    → Option ℕ
    → Option ℕ
    → Option ℕ
    → ℕ
    → ℕ
    → ℕ
    → ℕ
    → Option WalkForwardFold
warmed index ts has_warmup has_test start before test_start a b c d =
    known_if has_warmup start (λ x. known_if has_warmup before (λ y.
      known_if has_test test_start (λ z. known (get_elem? ts a) (λ ta. known (get_elem? ts b) (λ tb.
        known (get_elem? ts c) (λ tc. known (get_elem? ts d) (λ td. some (record {
          fold_index = index;
          warmup_start = x;
          warmup_end = y;
          train_start = ta;
          train_end = tb;
          test_start = tc;
          test_end = td;
          test_warmup_start = z;
        }))))))))

create_fold_pos :
    (index : ℕ) (ts : List ℕ) (a b c d w : ℕ)
    → create_fold index ts (pos a) (pos b) (pos c) (pos d) (pos w) ≡ counted_fold index ts a b c d w
unfolding create_fold counted_fold
create_fold_pos index ts a b c d w =
    rw (back_by_pos a w, back_by_pos c w)
      ((λ i.
          warmed index ts (ltb_pos (a - w) a i) (ltb_pos (c - w) c i) (get_elem? ts (a - w))
            (get_index ts (pos a -ℤ pos 1)) (get_elem? ts (c - w)) a b c d)
        ∙ (λ i. known_if (ltb (a - w) a) (get_elem? ts (a - w)) (λ x.
            before_pos ts a w
              (λ y. known_if (ltb (c - w) c) (get_elem? ts (c - w)) (λ z.
                known (get_elem? ts a) (λ ta. known (get_elem? ts b) (λ tb.
                  known (get_elem? ts c) (λ tc. known (get_elem? ts d) (λ td. some (record {
                    fold_index = index;
                    warmup_start = x;
                    warmup_end = y;
                    train_start = ta;
                    train_end = tb;
                    test_start = tc;
                    test_end = td;
                    test_warmup_start = z;
                  })))))))
              i)))

train_start_pos :
    (mode : WindowMode) (o : ℕ) → train_start_of mode (pos o) ≡ pos (train_start_at mode o)
train_start_pos rolling o = refl
train_start_pos expanding o = refl

fold_at_pos :
    (c : CountSpec) (ts : List ℕ) (z : Counts) (index o : ℕ)
    → ArePositive z
    → fold_at (spec_of c) ts (sizes_of z) index (pos o) ≡ counted_fold_at c ts z index o
fold_at_pos c ts z index o p =
    let a = p.train in
    let b = p.test in
    let warm : max_ℤ (pos 0) (pos c.warmup_candle_count) ≡ pos c.warmup_candle_count =
      max_pos 0 c.warmup_candle_count ∙ ground arith in
    rw
      (
        add_pos o z.train,
        add_pos (o + z.train) z.test,
        train_start_pos c.window_mode o,
        warm,
        sub_pos (o + z.train) 1 (omega arith),
        sub_pos (o + z.train + z.test) 1 (omega arith),
      )
      (create_fold_pos index ts _ _ _ _ _)

fits_at_pos :
    (n o : ℕ) (z : Counts)
    → leb_ℤ (pos o +ℤ pos z.train +ℤ pos z.test) (pos n) ≡ leb (o + z.train + z.test) n
fits_at_pos n o z =
    ap (λ m. leb_ℤ (m +ℤ pos z.test) (pos n)) (add_pos o z.train)
    ∙ ap (λ m. leb_ℤ m (pos n)) (add_pos (o + z.train) z.test)
    ∙ leb_pos (o + z.train + z.test) n

folds_from_pos :
    (c : CountSpec) (ts : List ℕ) (z : Counts) (rounds index o : ℕ)
    → ArePositive z
    → 0 < rounds
    → length ts < o + rounds
    → folds_from (spec_of c) ts (sizes_of z) rounds index (pos o)
      ≡ counted_from c ts z rounds index o
unfolding folds_from counted_from
folds_from_pos c ts z zero index o p h k = absurd (omega arith)
folds_from_pos c ts z (suc rounds) index o p h k =
    let a = p.train in
    let b = p.test in
    let s = p.step in
    let fits_pos = fits_at_pos (length ts) o z in
    let fold_pos = fold_at_pos c ts z index o p in
    (λ i.
      if fits_pos i
      then add_fold (fold_pos i)
          (folds_from (spec_of c) ts (sizes_of z) rounds (index + 1) (add_pos o z.step i))
      else some [])
    ∙ elim (Bool-cases (leb (o + z.train + z.test) (length ts))) [
      | inl fits ↦
          let enough : o + z.train + z.test ≤ length ts = ground arith in
          ap
            (λ rest.
              if leb (o + z.train + z.test) (length ts)
              then add_fold (counted_fold_at c ts z index o) rest
              else some [])
            (folds_from_pos c ts z rounds (index + 1) (o + z.step) p (omega arith) (omega arith))
      | inr over ↦
          if_else (leb (o + z.train + z.test) (length ts)) _ (some []) over
          ∙ sym (if_else (leb (o + z.train + z.test) (length ts)) _ (some []) over)
    ]

too_long_pos : (n a b : ℕ) → ltb_ℤ (pos n) (pos a +ℤ pos b) ≡ ltb n (a + b)
unfolding ◌+ℤ◌
too_long_pos n a b = ground arith

-- The folds of these sizes.
abbrev runs_with : WalkForwardWindowSpec → List ℕ → Sizes → Option (List WalkForwardFold)
runs_with spec ts z =
    if ltb (length ts) 4
    then some []
    else if ltb_ℤ (pos (length ts)) (z.train +ℤ z.test)
    then some []
    else folds_from spec ts z (suc (length ts + magnitude z.train + magnitude z.test)) 0 (pos 0)

-- The generator on numbers that are not negative is the one on natural numbers.
pub generate_folds_pos :
    (c : CountSpec) (ts : List ℕ) → generate_folds (spec_of c) ts ≡ counted_folds c ts
unfolding generate_folds counted_folds
generate_folds_pos c ts =
    let z = resolve_counts c ts in
    let run =
      folds_from_pos c ts z (suc (length ts + z.train + z.test)) 0 0
        (resolve_counts-ArePositive c ts) (omega arith) (omega arith) in
    ap (runs_with (spec_of c) ts) (resolve_window_sizes_pos c ts) ∙ (λ i.
      if ltb (length ts) 4
      then some []
      else if too_long_pos (length ts) z.train z.test i
      then some []
      else run i)
