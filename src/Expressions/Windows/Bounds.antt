-- ===== src/Expressions/Windows/Bounds.antt =====
-- src/core/expressions/rolling_window_evaluator.py: the candles that a window looks at.
use ml_crypto_trading.Prelude.{
  ℕ, zero, suc, ◌-◌, ◌≤◌, String, true, false, ◌⊎◌, inr, Option, none, some, List, [], ◌∷◌, ◌++◌,
  map, length, ltb, All, if_then, arith, ◌≡◌, ◌≢◌, if_else, refl, ap, ◌∙◌, inl, sym, Bool-cases,
}
use ml_crypto_trading.Prelude.Int.{ℤ, pos, ◌≤ℤ◌, ltb_ℤ, max_ℤ, min_ℤ}
use ml_crypto_trading.Expressions.Syntax.{Value, integer}
use ml_crypto_trading.Expressions.Windows.{
  Candle, MarketData, WindowError, is_active_candle, get_prior_candles, find_extractor, extractors,
  drop, window_of, resolve_window_values, max_of, min_of, highest, lowest, fold_values,
}
use ml_crypto_trading.Prelude.Decimal.{min_le_right}

get_prior_candles-append :
    (market : Option MarketData) (candles : List Candle) (c : Candle)
    → is_active_candle market c ≡ true
    → get_prior_candles market (candles ++ c ∷ []) ≡ candles
get_prior_candles-append market [] c h = if_then (is_active_candle market c) [] (c ∷ []) h
get_prior_candles-append market (d ∷ []) c h =
    ap (λ rest. d ∷ rest) (get_prior_candles-append market [] c h)
get_prior_candles-append market (d ∷ e ∷ candles) c h =
    ap (λ rest. d ∷ rest) (get_prior_candles-append market (e ∷ candles) c h)

-- The highest and the lowest value do not depend on the last candle while it is active: two candles
-- that are both active give the same results behind the same candles.
pub highest-is_active_candle :
    (market : Option MarketData) (candles : List Candle) (c c' : Candle) (series : String)
    (period : Value)
    → is_active_candle market c ≡ true
    → is_active_candle market c' ≡ true
    → (highest market (candles ++ c ∷ []) series period
        ≡ highest market (candles ++ c' ∷ []) series period)
      × (lowest market (candles ++ c ∷ []) series period
          ≡ lowest market (candles ++ c' ∷ []) series period)
unfolding highest lowest resolve_window_values
highest-is_active_candle market candles c c' series period h h' =
    rw (get_prior_candles-append market candles c h, get_prior_candles-append market candles c' h')
      (refl, refl)

length-drop : (n : ℕ) (candles : List Candle) → length (drop n candles) ≡ length candles - n
length-drop zero candles = omega arith
length-drop (suc n) [] = omega arith
length-drop (suc n) (c ∷ candles) = omega (arith, length-drop n candles)

not_suc : (n : ℕ) → 0 ≢ suc n
not_suc n e = omega (arith, e)

not_below : (a b : ℕ) → b ≤ a → ltb a b ≡ false
not_below a b h = ground arith

max_cases : (a b : ℤ) → (max_ℤ a b ≡ a) ⊎ (max_ℤ a b ≡ b)
unfolding max_ℤ
max_cases a b = elim (Bool-cases (ltb_ℤ a b)) [
  | inl more ↦ inr (rw more refl)
  | inr less ↦ inl (rw less refl)
]

min_cases : (a b : ℤ) → (min_ℤ a b ≡ a) ⊎ (min_ℤ a b ≡ b)
unfolding min_ℤ
min_cases a b = elim (Bool-cases (ltb_ℤ b a)) [
  | inl less ↦ inr (rw less refl)
  | inr more ↦ inl (rw more refl)
]

below_max : (a b c : ℤ) → b ≤ℤ a → b ≤ℤ max_ℤ a c
unfolding max_ℤ
below_max a b c h = ground arith

max_le_right : (a c : ℤ) → c ≤ℤ max_ℤ a c
unfolding max_ℤ
max_le_right a c = ground arith

above_min : (a b c : ℤ) → a ≤ℤ b → min_ℤ a c ≤ℤ b
unfolding min_ℤ
above_min a b c h = ground arith

below_max_of : (a b : ℤ) (values : List ℤ) → b ≤ℤ a → b ≤ℤ max_of a values
below_max_of a b [] h = h
below_max_of a b (c ∷ values) h = below_max_of (max_ℤ a c) b values (below_max a b c h)

above_min_of : (a b : ℤ) (values : List ℤ) → a ≤ℤ b → min_of a values ≤ℤ b
above_min_of a b [] h = h
above_min_of a b (c ∷ values) h = above_min_of (min_ℤ a c) b values (above_min a b c h)

module _ (f : Candle → ℤ) where
  -- The values of some candles lie between two bounds.
  abbrev pub AreWithin : ℤ → ℤ → List Candle → Type 0
  AreWithin l h = All (λ c. (l ≤ℤ f c) × (f c ≤ℤ h))

  extremes-AreWithin :
      (a b : ℤ) (candles : List Candle)
      → AreWithin (min_of a (map f candles)) (max_of b (map f candles)) candles
  extremes-AreWithin a b [] = tt
  extremes-AreWithin a b (c ∷ candles) = (
    (
      above_min_of (min_ℤ a (f c)) (f c) (map f candles) (min_le_right a (f c)),
      below_max_of (max_ℤ b (f c)) (f c) (map f candles) (max_le_right b (f c)),
    ),
    extremes-AreWithin (min_ℤ a (f c)) (max_ℤ b (f c)) candles,
  )

  -- The value of one of some candles.
  abbrev pub IsAmong : ℤ → List Candle → Type 0
  IsAmong v candles =
      (before : List Candle) × (c : Candle) × (after : List Candle) × (candles
        ≡ before ++ c ∷ after)
      × (f c ≡ v)

  here : (v : ℤ) (c : Candle) (candles : List Candle) → f c ≡ v → IsAmong v (c ∷ candles)
  here v c candles e = ([], c, candles, refl, e)

  there : (v : ℤ) (c : Candle) (candles : List Candle) → IsAmong v candles → IsAmong v (c ∷ candles)
  there v c candles (before, d, after, e, e') = (c ∷ before, d, after, ap (λ ds. c ∷ ds) e, e')

  -- A value that is the better of two, or that of a later candle, is the first or that of a candle.
  step :
      (v a b : ℤ) (c : Candle) (candles : List Candle)
      → (b ≡ a) ⊎ (b ≡ f c)
      → (v ≡ b) ⊎ IsAmong v candles
      → (v ≡ a) ⊎ IsAmong v (c ∷ candles)
  step v a b c candles better (inr later) = inr (there v c candles later)
  step v a b c candles (inl old) (inl e) = inl (e ∙ old)
  step v a b c candles (inr new) (inl e) = inr (here v c candles (sym (e ∙ new)))

  max_of-IsAmong :
      (a : ℤ) (candles : List Candle)
      → (max_of a (map f candles) ≡ a) ⊎ IsAmong (max_of a (map f candles)) candles
  max_of-IsAmong a [] = inl refl
  max_of-IsAmong a (c ∷ candles) =
      step _ a (max_ℤ a (f c)) c candles (max_cases a (f c))
        (max_of-IsAmong (max_ℤ a (f c)) candles)

  min_of-IsAmong :
      (a : ℤ) (candles : List Candle)
      → (min_of a (map f candles) ≡ a) ⊎ IsAmong (min_of a (map f candles)) candles
  min_of-IsAmong a [] = inl refl
  min_of-IsAmong a (c ∷ candles) =
      step _ a (min_ℤ a (f c)) c candles (min_cases a (f c))
        (min_of-IsAmong (min_ℤ a (f c)) candles)

  attained :
      (v : ℤ) (c : Candle) (candles : List Candle)
      → (v ≡ f c) ⊎ IsAmong v candles
      → IsAmong v (c ∷ candles)
  attained v c candles (inl e) = here v c candles (sym e)
  attained v c candles (inr later) = there v c candles later

  abbrev Extremes : List Candle → WindowError ⊎ Option ℤ → WindowError ⊎ Option ℤ → Type 0
  Extremes candles low high =
      (l h : ℤ) × (low ≡ inr (some l))
      × (high ≡ inr (some h))
      × IsAmong l candles
      × IsAmong h candles
      × AreWithin l h candles

  fold_values-Extremes :
      (candles : List Candle) (n : ℕ)
      → length candles ≡ suc n
      → Extremes candles
          (fold_values min_of (inr (some (map f candles))))
          (fold_values max_of (inr (some (map f candles))))
  fold_values-Extremes [] n e = absurd (not_suc n e)
  fold_values-Extremes (c ∷ candles) n e = (
    _,
    _,
    refl,
    refl,
    attained _ c candles (min_of-IsAmong (f c) candles),
    attained _ c candles (max_of-IsAmong (f c) candles),
    (
      (
        above_min_of (f c) (f c) (map f candles) (omega arith),
        below_max_of (f c) (f c) (map f candles) (omega arith),
      ),
      extremes-AreWithin (f c) (f c) candles,
    ),
  )

-- The candles of a window: the last before the active one, as many as the period says.
abbrev pub window : ℕ → Option MarketData → List Candle → List Candle
window period market candles =
    let prior = get_prior_candles market candles in drop (length prior - period) prior

-- With a positive period, a known series and enough candles before the active one, both the lowest and
-- the highest value exist, they are the values of two of the last candles of the period, and the values
-- of all of these lie between them.
pub highest-lowest :
    (market : Option MarketData) (candles : List Candle) (series : String) (n : ℕ) (f : Candle → ℤ)
    → find_extractor series extractors ≡ some f
    → suc n ≤ length (get_prior_candles market candles)
    → (l h : ℤ) × (lowest market candles series (integer (pos (suc n))) ≡ inr (some l))
      × (highest market candles series (integer (pos (suc n))) ≡ inr (some h))
      × IsAmong f l (window (suc n) market candles)
      × IsAmong f h (window (suc n) market candles)
      × AreWithin f l h (window (suc n) market candles)
unfolding highest lowest resolve_window_values
highest-lowest market candles series n f e enough =
    let prior = get_prior_candles market candles in
    let last = window (suc n) market candles in
    let runs : window_of (suc n) prior ≡ some last =
      if_else (ltb (length prior) (suc n)) none (some last)
        (not_below (length prior) (suc n) enough) in
    rw (e, runs)
      (fold_values-Extremes f last n
        (omega (arith, length-drop (length prior - suc n) prior, enough)))
