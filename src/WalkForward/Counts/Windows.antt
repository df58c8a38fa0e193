-- ===== src/WalkForward/Counts/Windows.antt =====
-- src/walk_forward/generator/fold_generator.py: which folds the loop makes.
use ml_crypto_trading.Prelude.{
  ℕ, zero, suc, ◌+◌, ◌-◌, ◌*◌, ◌≤◌, ◌<◌, Option, none, some, List, [], ◌∷◌, Bool, true, false, leb,
  ltb, length, Bool-cases, inl, inr, if_then, if_else, if◌then◌else◌, ◌≡◌, refl, sym, ap, ◌∙◌,
  arith,
}
use ml_crypto_trading.WalkForward.Counts.Positive.{ArePositive, resolve_counts-ArePositive}
use ml_crypto_trading.WalkForward.Folds.{
  WalkForwardFold, WindowMode, rolling, expanding, get_elem?, to_instant, known, known_if, add_fold,
}
use ml_crypto_trading.WalkForward.Counts.{
  CountSpec, counted_fold, Counts, resolve_counts, train_start_at, counted_fold_at, counted_from,
  counted_folds,
}

get_elem?_below : (ts : List ℕ) (i : ℕ) → i < length ts → (t : ℕ) × (get_elem? ts i ≡ some t)
get_elem?_below [] i h = absurd (omega arith)
get_elem?_below (t ∷ ts) zero h = (t, refl)
get_elem?_below (t ∷ ts) (suc i) h = get_elem?_below ts i (omega arith)

known_total :
    (ts : List ℕ) (i : ℕ) (next : ℕ → Option WalkForwardFold)
    → i < length ts
    → ((t : ℕ) → (fold : WalkForwardFold) × (next t ≡ some fold))
    → (fold : WalkForwardFold) × (known (get_elem? ts i) next ≡ some fold)
known_total ts i next h total =
    let (t, e) = get_elem?_below ts i h in
    let (fold, f) = total (to_instant t) in (fold, ap (λ o. known o next) e ∙ f)

known_if_total :
    (b : Bool) (ts : List ℕ) (i : ℕ) (next : Option ℕ → Option WalkForwardFold)
    → i < length ts
    → ((t : Option ℕ) → (fold : WalkForwardFold) × (next t ≡ some fold))
    → (fold : WalkForwardFold) × (known_if b (get_elem? ts i) next ≡ some fold)
known_if_total false ts i next h total = total none
known_if_total true ts i next h total =
    let (t, e) = get_elem?_below ts i h in
    let (fold, f) = total (some (to_instant t)) in (fold, ap (λ o. known_if true o next) e ∙ f)

counted_fold_total :
    (index : ℕ) (ts : List ℕ) (a b c d warmup : ℕ)
    → a < length ts
    → b < length ts
    → c < length ts
    → d < length ts
    → (fold : WalkForwardFold) × (counted_fold index ts a b c d warmup ≡ some fold)
unfolding counted_fold
counted_fold_total index ts a b c d warmup ha hb hc hd =
    known_if_total (ltb (a - warmup) a) ts (a - warmup) _ (omega arith) (λ x.
      known_if_total (ltb (a - warmup) a) ts (a - 1) _ (omega arith) (λ y.
        known_if_total (ltb (c - warmup) c) ts (c - warmup) _ (omega arith) (λ z.
          known_total ts a _ ha (λ t.
            known_total ts b _ hb
              (λ t. known_total ts c _ hc (λ t. known_total ts d _ hd (λ t. (_, refl))))))))

train_start_le : (mode : WindowMode) (offset : ℕ) → train_start_at mode offset ≤ offset
train_start_le rolling offset = omega arith
train_start_le expanding offset = omega arith

module _ (spec : CountSpec) (ts : List ℕ) (z : Counts) (p : ArePositive z) where
  pub counted_fold_at_total :
      (index offset : ℕ)
      → offset + z.train + z.test ≤ length ts
      → (fold : WalkForwardFold) × (counted_fold_at spec ts z index offset ≡ some fold)
  counted_fold_at_total index offset h =
      let start = train_start_le spec.window_mode offset in
      let a = p.train in
      let b = p.test in
      counted_fold_total index ts _ _ _ _ spec.warmup_candle_count (omega arith) (omega arith)
        (omega arith) (omega arith)

  -- The fold with a number, if the history is long enough for it.
  abbrev pub nth_fold : ℕ → ℕ → ℕ → Option WalkForwardFold
  nth_fold index offset k =
      if leb (offset + k * z.step + z.train + z.test) (length ts)
      then counted_fold_at spec ts z (index + k) (offset + k * z.step)
      else none

  nth_fold-suc :
      (index offset k : ℕ)
      → nth_fold (index + 1) (offset + z.step) k ≡ nth_fold index offset (suc k)
  nth_fold-suc index offset k =
      let same : offset + z.step + k * z.step ≡ offset + suc k * z.step = omega arith in
      let number : index + 1 + k ≡ index + suc k = omega arith in
      λ i.
        if leb (same i + z.train + z.test) (length ts)
        then counted_fold_at spec ts z (number i) (same i)
        else none

  nth_fold_over :
      (index offset k : ℕ) → length ts < offset + z.train + z.test → nth_fold index offset k ≡ none
  nth_fold_over index offset k h =
      if_else (leb (offset + k * z.step + z.train + z.test) (length ts)) _ none (ground arith)

  nth_fold_zero :
      (index offset : ℕ)
      → offset + z.train + z.test ≤ length ts
      → nth_fold index offset 0 ≡ counted_fold_at spec ts z index offset
  nth_fold_zero index offset h =
      let here : offset + 0 * z.step ≡ offset = omega arith in
      let number : index + 0 ≡ index = omega arith in
      let fits : leb (offset + 0 * z.step + z.train + z.test) (length ts) ≡ true = ground arith in
      if_then (leb (offset + 0 * z.step + z.train + z.test) (length ts)) _ none fits
      ∙ (λ i. counted_fold_at spec ts z (number i) (here i))

  nth_cons :
      (fold : WalkForwardFold) (folds : List WalkForwardFold) (index offset : ℕ)
      → some fold ≡ nth_fold index offset 0
      → ((k : ℕ) → get_elem? folds k ≡ nth_fold index offset (suc k))
      → (k : ℕ) → get_elem? (fold ∷ folds) k ≡ nth_fold index offset k
  nth_cons fold folds index offset h t zero = h
  nth_cons fold folds index offset h t (suc k) = t k

  pub counted_from_lem :
      (rounds index offset : ℕ)
      → length ts < offset + rounds
      → (folds : List WalkForwardFold) × (counted_from spec ts z rounds index offset ≡ some folds)
        × ((k : ℕ) → get_elem? folds k ≡ nth_fold index offset k)
  unfolding counted_from
  counted_from_lem zero index offset h =
      ([], refl, λ k. sym (nth_fold_over index offset k (omega arith)))
  counted_from_lem (suc rounds) index offset h =
      elim (Bool-cases (leb (offset + z.train + z.test) (length ts))) [
        | inl fits ↦
            let enough : offset + z.train + z.test ≤ length ts = ground arith in
            let forward = p.step in
            let (fold, e) = counted_fold_at_total index offset enough in
            let (folds, f, nth) =
              counted_from_lem rounds (index + 1) (offset + z.step) (omega arith) in
            (
              fold ∷ folds,
              if_then (leb (offset + z.train + z.test) (length ts)) _ (some []) fits
                  ∙ ap
                      (λ o.
                        add_fold o (counted_from spec ts z rounds (index + 1) (offset + z.step)))
                      e
                  ∙ ap (add_fold (some fold)) f,
              nth_cons fold folds index offset (sym (nth_fold_zero index offset enough ∙ e))
                  (λ k. nth k ∙ nth_fold-suc index offset k),
            )
        | inr over ↦
            let short : length ts < offset + z.train + z.test = ground arith in
            ([], if_else _ _ _ over, λ k. sym (nth_fold_over index offset k short))
      ]

-- The fold with a number, if the windows lie in the history.
abbrev pub if_long : CountSpec → List ℕ → Counts → ℕ → Option WalkForwardFold
if_long spec ts z k =
    if leb (k * z.step + z.train + z.test) (length ts)
    then counted_fold_at spec ts z k (k * z.step)
    else none

nth_fold_first :
    (spec : CountSpec) (ts : List ℕ) (z : Counts) (p : ArePositive z) (k : ℕ)
    → nth_fold spec ts z p 0 0 k ≡ if_long spec ts z k
nth_fold_first spec ts z p k =
    let here : 0 + k * z.step ≡ k * z.step = omega arith in
    let number : 0 + k ≡ k = omega arith in
    λ i.
      if leb (here i + z.train + z.test) (length ts)
      then counted_fold_at spec ts z (number i) (here i)
      else none

too_short : (n a b : ℕ) → ltb n (a + b) ≡ true → leb (0 + a + b) n ≡ false
too_short n a b h = ground arith

counted_folds-runs :
    (spec : CountSpec) (ts : List ℕ) (folds : List WalkForwardFold)
    → ltb (length ts) 4 ≡ false
    → counted_from spec ts
        (resolve_counts spec ts)
        (suc (length ts + (resolve_counts spec ts).train + (resolve_counts spec ts).test))
        0
        0
      ≡ some folds
    → counted_folds spec ts ≡ some folds
unfolding counted_folds counted_from
counted_folds-runs spec ts folds many e =
    let z = resolve_counts spec ts in
    if_else (ltb (length ts) 4) _ _ many ∙ elim (Bool-cases (ltb (length ts) (z.train + z.test))) [
      | inl short ↦
          let over : leb (0 + z.train + z.test) (length ts) ≡ false =
            too_short (length ts) z.train z.test short in
          if_then (ltb (length ts) (z.train + z.test)) _ _ short
          ∙ sym (if_else (leb (0 + z.train + z.test) (length ts)) _ (some []) over)
          ∙ e
      | inr long ↦ if_else (ltb (length ts) (z.train + z.test)) _ _ long ∙ e
    ]

-- The fold with a number: there is one if there are four timestamps and the training and the test window
-- that start so many steps after the first timestamp lie in the history.
abbrev pub expected_fold : CountSpec → List ℕ → ℕ → Option WalkForwardFold
expected_fold spec ts k =
    let z = resolve_counts spec ts in if ltb (length ts) 4 then none else if_long spec ts z k

-- The loop ends without an index error, and makes exactly the folds that the history is long enough
-- for, in their order: the fold with the number k starts k steps after the first timestamp.
pub counted_folds-nth :
    (spec : CountSpec) (ts : List ℕ)
    → (folds : List WalkForwardFold) × (counted_folds spec ts ≡ some folds)
      × ((k : ℕ) → get_elem? folds k ≡ expected_fold spec ts k)
unfolding counted_folds
counted_folds-nth spec ts = elim (Bool-cases (ltb (length ts) 4)) [
  | inl few ↦
      ([], if_then (ltb (length ts) 4) _ _ few, λ k. sym (if_then (ltb (length ts) 4) _ _ few))
  | inr many ↦
      let z = resolve_counts spec ts in
      let p = resolve_counts-ArePositive spec ts in
      let (folds, e, nth) =
        counted_from_lem spec ts z p (suc (length ts + z.train + z.test)) 0 0 (omega arith) in
      let run = counted_folds-runs spec ts folds many e in
      (
        folds,
        run,
        λ k.
            nth k
            ∙ nth_fold_first spec ts z p k
            ∙ sym (if_else (ltb (length ts) 4) none (if_long spec ts z k) many),
      )
]
