-- ===== src/WalkForward/Counts/Ordered.antt =====
-- src/walk_forward/generator/fold_generator.py on natural numbers: the order of the instants of a fold.
use mathlib.Core.Option.{some-injective}
use mathlib.Core.Path.{subst}
use ml_crypto_trading.Prelude.{
  ℕ, zero, suc, ◌+◌, ◌-◌, ◌*◌, ◌≤◌, ◌<◌, Option, none, some, List, [], ◌∷◌, Bool, true, false, All,
  leb, ltb, length, Bool-cases, inl, inr, if◌then◌else◌, ◌≡◌, refl, sym, ap, ◌∙◌, arith,
}
use ml_crypto_trading.WalkForward.Folds.{
  WalkForwardFold, WindowMode, rolling, expanding, get_elem?, to_instant, known, known_if,
}
use ml_crypto_trading.WalkForward.Counts.{
  CountSpec, counted_fold, Counts, resolve_counts, train_start_at, counted_fold_at, counted_folds,
}
use ml_crypto_trading.WalkForward.Counts.Positive.{ArePositive, resolve_counts-ArePositive}
use ml_crypto_trading.WalkForward.Counts.Windows.{if_long, counted_folds-nth}

-- Every timestamp stands for a later instant than the one before it.
abbrev pub IsIncreasing : List ℕ → Type 0
IsIncreasing [] = Unit
IsIncreasing (t ∷ []) = Unit
IsIncreasing (t ∷ u ∷ ts) = (to_instant t < to_instant u) × IsIncreasing (u ∷ ts)

abbrev pub IsEarlier : Option ℕ → ℕ → Type 0
IsEarlier none instant = Unit
IsEarlier (some a) instant = a < instant

-- The training window ends before the test window starts, and the warm-ups before the windows.
pub record IsOrdered (fold : WalkForwardFold) : Type 0 where
  pub training : fold.train_start ≤ fold.train_end
  pub unseen : fold.train_end < fold.test_start
  pub testing : fold.test_start ≤ fold.test_end
  pub warmup_start : IsEarlier fold.warmup_start fold.train_start
  pub warmup_end : IsEarlier fold.warmup_end fold.train_start
  pub test_warmup : IsEarlier fold.test_warmup_start fold.test_start

later_than_first :
    (t : ℕ) (ts : List ℕ) (j u : ℕ)
    → IsIncreasing (t ∷ ts)
    → get_elem? ts j ≡ some u
    → to_instant t < to_instant u
later_than_first t [] j u h e = cc
later_than_first t (v ∷ ts) zero u h e =
    subst (λ w. to_instant t < to_instant w) (some-injective _ _ e) h.0
later_than_first t (v ∷ ts) (suc j) u h e =
    let rest = later_than_first v ts j u h.1 e in let first = h.0 in omega arith

increasing :
    (ts : List ℕ) (i j t u : ℕ)
    → IsIncreasing ts
    → i < j
    → get_elem? ts i ≡ some t
    → get_elem? ts j ≡ some u
    → to_instant t < to_instant u
increasing [] i j t u h lt e f = cc
increasing (v ∷ ts) zero zero t u h lt e f = absurd (omega arith)
increasing (v ∷ ts) zero (suc j) t u h lt e f =
    subst (λ w. to_instant w < to_instant u) (some-injective _ _ e) (later_than_first v ts j u h f)
increasing (v ∷ ts) (suc i) zero t u h lt e f = absurd (omega arith)
increasing (v ∷ []) (suc i) (suc j) t u h lt e f = cc
increasing (v ∷ w ∷ ts) (suc i) (suc j) t u h lt e f =
    increasing (w ∷ ts) i j t u h.1 (omega arith) e f

not_later :
    (ts : List ℕ) (i j t u : ℕ)
    → IsIncreasing ts
    → i ≤ j
    → get_elem? ts i ≡ some t
    → get_elem? ts j ≡ some u
    → to_instant t ≤ to_instant u
not_later ts i j t u h le e f = elim (Bool-cases (ltb i j)) [
  | inl less ↦ let lt = increasing ts i j t u h (ground arith) e f in omega arith
  | inr same ↦
      let at : i ≡ j = ground arith in
      let one : t ≡ u = some-injective _ _ (sym e ∙ ap (get_elem? ts) at ∙ f) in
      subst (λ w. to_instant t ≤ to_instant w) one (omega arith)
]

known_inv :
    (o : Option ℕ) (next : ℕ → Option WalkForwardFold) (fold : WalkForwardFold)
    → known o next ≡ some fold
    → (t : ℕ) × (o ≡ some t) × (next (to_instant t) ≡ some fold)
known_inv none next fold e = cc
known_inv (some t) next fold e = (t, refl, e)

-- Where an optional instant comes from.
abbrev ComesFrom : Bool → List ℕ → ℕ → Option ℕ → Type 0
ComesFrom b ts i none = Unit
ComesFrom b ts i (some a) = (b ≡ true) × (t : ℕ) × (get_elem? ts i ≡ some t) × (to_instant t ≡ a)

known_if_inv :
    (b : Bool) (ts : List ℕ) (i : ℕ) (o : Option ℕ) (next : Option ℕ → Option WalkForwardFold)
    (fold : WalkForwardFold)
    → get_elem? ts i ≡ o
    → known_if b o next ≡ some fold
    → (a : Option ℕ) × ComesFrom b ts i a × (next a ≡ some fold)
known_if_inv false ts i o next fold g e = (none, tt, e)
known_if_inv true ts i none next fold g e = cc
known_if_inv true ts i (some t) next fold g e = (some (to_instant t), (refl, t, g, refl), e)

earlier :
    (b : Bool) (ts : List ℕ) (i j u : ℕ) (a : Option ℕ)
    → IsIncreasing ts
    → (b ≡ true → i < j)
    → ComesFrom b ts i a
    → get_elem? ts j ≡ some u
    → IsEarlier a (to_instant u)
earlier b ts i j u none h lt c f = tt
earlier b ts i j u (some a) h lt c f =
    let (shown, t, e, same) = c in
    subst (λ x. x < to_instant u) same (increasing ts i j t u h (lt shown) e f)

pub counted_fold-IsOrdered :
    (index : ℕ) (ts : List ℕ) (a b c d warmup : ℕ) (fold : WalkForwardFold)
    → IsIncreasing ts
    → a ≤ b
    → b < c
    → c ≤ d
    → counted_fold index ts a b c d warmup ≡ some fold
    → IsOrdered fold
unfolding counted_fold
counted_fold-IsOrdered index ts a b c d warmup fold inc ab bc cd e =
    let (w, from_w, e1) = known_if_inv (ltb (a - warmup) a) ts (a - warmup) _ _ fold refl e in
    let (v, from_v, e2) = known_if_inv (ltb (a - warmup) a) ts (a - 1) _ _ fold refl e1 in
    let (x, from_x, e3) = known_if_inv (ltb (c - warmup) c) ts (c - warmup) _ _ fold refl e2 in
    let (ta, ga, e4) = known_inv (get_elem? ts a) _ fold e3 in
    let (tb, gb, e5) = known_inv (get_elem? ts b) _ fold e4 in
    let (tc, gc, e6) = known_inv (get_elem? ts c) _ fold e5 in
    let (td, gd, e7) = known_inv (get_elem? ts d) _ fold e6 in
    subst IsOrdered (some-injective _ _ e7) (record {
      training = not_later ts a b ta tb inc ab ga gb;
      unseen = increasing ts b c tb tc inc bc gb gc;
      testing = not_later ts c d tc td inc cd gc gd;
      warmup_start = earlier _ ts (a - warmup) a ta w inc (λ t. ground arith) from_w ga;
      warmup_end = earlier _ ts (a - 1) a ta v inc (λ t. ground arith) from_v ga;
      test_warmup = earlier _ ts (c - warmup) c tc x inc (λ t. ground arith) from_x gc;
    })

all_of_nth :
    {P : WalkForwardFold → Type 0} (folds : List WalkForwardFold)
    → ((k : ℕ) (fold : WalkForwardFold) → get_elem? folds k ≡ some fold → P fold)
    → All P folds
all_of_nth [] h = tt
all_of_nth (fold ∷ folds) h = (h 0 fold refl, all_of_nth folds (λ k f e. h (suc k) f e))

train_start_le : (mode : WindowMode) (offset : ℕ) → train_start_at mode offset ≤ offset
train_start_le rolling offset = omega arith
train_start_le expanding offset = omega arith

counted_fold_at-IsOrdered :
    (spec : CountSpec) (ts : List ℕ) (z : Counts) (index offset : ℕ) (fold : WalkForwardFold)
    → ArePositive z
    → IsIncreasing ts
    → counted_fold_at spec ts z index offset ≡ some fold
    → IsOrdered fold
counted_fold_at-IsOrdered spec ts z index offset fold p inc e =
    let start = train_start_le spec.window_mode offset in
    let a = p.train in
    let b = p.test in
    counted_fold-IsOrdered index ts _ _ _ _ spec.warmup_candle_count fold inc (omega arith)
      (omega arith) (omega arith) e

if_inv :
    (b : Bool) (o : Option WalkForwardFold) (fold : WalkForwardFold)
    → (if b then o else none) ≡ some fold
    → o ≡ some fold
if_inv true o fold e = e
if_inv false o fold e = cc

if_not_inv :
    (b : Bool) (o : Option WalkForwardFold) (fold : WalkForwardFold)
    → (if b then none else o) ≡ some fold
    → o ≡ some fold
if_not_inv true o fold e = cc
if_not_inv false o fold e = e

-- If every timestamp stands for a later instant than the one before it, the generator returns, and in every fold the training window ends before
-- the test window starts, no window ends before it starts, and the warm-ups lie before the windows that
-- they are for: no fold is tested on what it was trained on.
pub counted_folds-IsOrdered :
    (spec : CountSpec) (ts : List ℕ)
    → IsIncreasing ts
    → (folds : List WalkForwardFold) × (counted_folds spec ts ≡ some folds) × All IsOrdered folds
counted_folds-IsOrdered spec ts inc =
    let z = resolve_counts spec ts in
    let (folds, e, nth) = counted_folds-nth spec ts in
    (
      folds,
      e,
      all_of_nth folds (λ k fold f.
          counted_fold_at-IsOrdered spec ts z k (k * z.step) fold
            (resolve_counts-ArePositive spec ts) inc
            (if_inv (leb (k * z.step + z.train + z.test) (length ts)) _ fold
              (if_not_inv (ltb (length ts) 4) (if_long spec ts z k) fold (sym (nth k) ∙ f)))),
    )
