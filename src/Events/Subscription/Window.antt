-- ===== src/Events/Subscription/Window.antt =====
-- src/events/message_subscription.py against a window on the events that were published.
use ml_crypto_trading.Prelude.{
  ℕ, zero, suc, ◌-◌, ◌≤◌, ◌<◌, ◌≡◌, refl, sym, ap, ◌∙◌, inl, inr, arith, true, false, Bool-cases,
  Option, some, List, [], ◌∷◌, ◌++◌, map, length, length-append, leb,
}
use mathlib.Core.List.{append-nil, append_assoc}
use ml_crypto_trading.Events.Subscription.{
  MessageSubscription, create, is_full, without_oldest, force_put, put,
}

module _ {ℓ} {A : Type ℓ} where
  -- The list without its first `n` elements, and its last `n` elements.
  abbrev pub skip : ℕ → List A → List A
  skip zero xs = xs
  skip (suc n) [] = []
  skip (suc n) (x ∷ xs) = skip n xs

  abbrev pub last_ones : ℕ → List A → List A
  last_ones n xs = skip (length xs - n) xs

  length-skip : (n : ℕ) (xs : List A) → length (skip n xs) ≡ length xs - n
  length-skip zero xs = omega arith
  length-skip (suc n) [] = omega arith
  length-skip (suc n) (x ∷ xs) = omega (arith, length-skip n xs)

  skip-append : (n : ℕ) (xs ys : List A) → n ≤ length xs → skip n (xs ++ ys) ≡ skip n xs ++ ys
  skip-append zero xs ys h = refl
  skip-append (suc n) [] ys h = ground arith
  skip-append (suc n) (x ∷ xs) ys h = skip-append n xs ys (omega arith)

module _ {ℓ} {E : Type ℓ} where
  without_oldest-skip :
      (n : ℕ) (xs : List (Option E)) → without_oldest (skip n xs) ≡ skip (suc n) xs
  without_oldest-skip zero [] = refl
  without_oldest-skip zero (x ∷ xs) = refl
  without_oldest-skip (suc n) [] = refl
  without_oldest-skip (suc n) (x ∷ xs) = without_oldest-skip n xs

  is_full_at : (m : ℕ) (q : List (Option E)) → 0 < m → m ≤ length q → is_full m q ≡ true
  is_full_at m q h g = ground arith

  is_full_below : (m : ℕ) (q : List (Option E)) → length q < m → is_full m q ≡ false
  is_full_below m q g = ground arith

  force_put_full :
      (m : ℕ) (x : Option E) (q : List (Option E))
      → is_full m q ≡ true
      → is_full m (without_oldest q) ≡ false
      → force_put m x q ≡ without_oldest q ++ x ∷ []
  force_put_full m x q a b = rw (a, b)

  force_put_room :
      (m : ℕ) (x : Option E) (q : List (Option E))
      → is_full m q ≡ false
      → force_put m x q ≡ q ++ x ∷ []
  force_put_room m x q a = rw a

  window_full :
      (m : ℕ) (x : Option E) (xs : List (Option E))
      → 0 < m
      → m ≤ length xs
      → force_put m x (last_ones m xs) ≡ last_ones m (xs ++ x ∷ [])
  window_full m x xs h g =
      let k = length xs - m in
      let long : m ≤ length (skip k xs) = omega (arith, length-skip k xs) in
      let short : length (skip (suc k) xs) < m = omega (arith, length-skip (suc k) xs) in
      let next : length (xs ++ x ∷ []) - m ≡ suc k = omega (arith, length-append xs (x ∷ [])) in
      force_put_full m x (skip k xs) (is_full_at m (skip k xs) h long)
        (rw (without_oldest-skip k xs) (is_full_below m (skip (suc k) xs) short))
      ∙ ap (λ q. q ++ x ∷ []) (without_oldest-skip k xs)
      ∙ sym (skip-append (suc k) xs (x ∷ []) (omega arith))
      ∙ ap (λ n. skip n (xs ++ x ∷ [])) (sym next)

  window_room :
      (m : ℕ) (x : Option E) (xs : List (Option E))
      → length xs < m
      → force_put m x (last_ones m xs) ≡ last_ones m (xs ++ x ∷ [])
  window_room m x xs g =
      let now : length xs - m ≡ 0 = omega arith in
      let next : length (xs ++ x ∷ []) - m ≡ 0 = omega (arith, length-append xs (x ∷ [])) in
      rw (now, next) (force_put_room m x xs (is_full_below m xs g))

  -- One more element moves the window by one.
  force_put-last_ones :
      (m : ℕ) (x : Option E) (xs : List (Option E))
      → 0 < m
      → force_put m x (last_ones m xs) ≡ last_ones m (xs ++ x ∷ [])
  force_put-last_ones m x xs h = elim (Bool-cases (leb m (length xs))) [
    | inl full ↦ window_full m x xs h (ground arith)
    | inr room ↦ window_room m x xs (ground arith)
  ]

  is_full-last_ones :
      (m : ℕ) (xs : List (Option E)) → 0 < m → is_full m (last_ones m xs) ≡ leb m (length xs)
  is_full-last_ones m xs h = ground (arith, length-skip (length xs - m) xs)

  -- The subscription after a list of events that were published.
  pub put_all : List E → MessageSubscription E → MessageSubscription E
  put_all [] s = s
  put_all (e ∷ es) s = put_all es (put e s)

  -- What is left of a window on all that was put, in an open subscription.
  record IsWindow (xs : List (Option E)) (m : ℕ) (s : MessageSubscription E) : Type ℓ where
    size : s.max_size ≡ m
    window : s.queue ≡ last_ones m xs
    lost : s.dropped ≡ length xs - m
    open_still : s.closed ≡ false

  put-IsWindow :
      (e : E) (xs : List (Option E)) (m : ℕ) (s : MessageSubscription E)
      → 0 < m
      → IsWindow xs m s
      → IsWindow (xs ++ some e ∷ []) m (put e s)
  unfolding put
  put-IsWindow e xs m s h w = rw w.open_still (record {
    size = w.size;
    window = rw (w.size, w.window) (force_put-last_ones m (some e) xs h);
    lost =
        rw (w.size, w.window, w.lost, is_full-last_ones m xs h)
          (ground (arith, length-append xs (some e ∷ [])));
    open_still = refl;
  })

  put_all-IsWindow :
      (es : List E) (xs : List (Option E)) (m : ℕ) (s : MessageSubscription E)
      → 0 < m
      → IsWindow xs m s
      → IsWindow (xs ++ map some es) m (put_all es s)
  unfolding put_all
  put_all-IsWindow [] xs m s h w = rw (append-nil xs) w
  put_all-IsWindow (e ∷ es) xs m s h w =
      rw (← append_assoc xs (some e ∷ []) (map some es))
        (put_all-IsWindow es (xs ++ some e ∷ []) m (put e s) h (put-IsWindow e xs m s h w))

  skip-nil : (n : ℕ) → ◌≡◌ {A = List (Option E)} [] (skip n [])
  skip-nil zero = refl
  skip-nil (suc n) = refl

  length-map-some : (es : List E) → length (map (λ e. some e) es) ≡ length es
  length-map-some [] = refl
  length-map-some (e ∷ es) = ap suc (length-map-some es)

  -- A new subscription with a positive bound, after any events are put into it and before it is read
  -- or closed, holds the last of them in order, as many as the bound allows, and has counted all
  -- others as dropped.
  pub put_all-last_ones :
      (m : ℕ) (es : List E)
      → 0 < m
      → let s = put_all es (create m) in
        (s.queue ≡ last_ones m (map some es)) × (s.dropped ≡ length es - m) × (length s.queue ≤ m)
  put_all-last_ones m es h =
      let w = put_all-IsWindow es [] m (create m) h (record {
        size = refl;
        window = skip-nil (0 - m);
        lost = omega arith;
        open_still = refl;
      }) in
      (
        w.window,
        w.lost ∙ ap (λ n. n - m) (length-map-some es),
        rw w.window (omega (arith, length-skip (length (map some es) - m) (map some es))),
      )
