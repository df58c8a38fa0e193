-- ===== src/Holdings/Quantity.antt =====
-- src/trading/helpers/portfolio_helper.py: the quantity that is held.
use ml_crypto_trading.Prelude.{
  false, List, [], ◌∷◌, map, select, All, leb, if_cases, if_intro, Bool-cases, inl, inr, arith, ◌≡◌,
  refl, sym, ◌∙◌, ap,
}
use ml_crypto_trading.Prelude.Int.{ℤ, pos, ◌+ℤ◌, ◌-ℤ◌, ◌≤ℤ◌, max_ℤ, ltb_ℤ, leb_ℤ, int_laws}
use ml_crypto_trading.Prelude.Decimal.{zero_dec, max_of_le, max_of_nonpos, leb_ℤ→le, leb_ℤ→gt}
use ml_crypto_trading.Session.Lot.{PositionEntry}
use ml_crypto_trading.Holdings.{
  Holding, holding_of, insert_by_time, sort_by_time, sell_from, sell_all, get_active_holdings,
}

-- The sum of the quantities of some positions, and of some holdings.
unfoldable pub traded : List PositionEntry → ℤ
traded [] = zero_dec
traded (x ∷ xs) = x.quantity +ℤ traded xs

unfoldable pub held : List Holding → ℤ
held [] = zero_dec
held (h ∷ hs) = h.1 +ℤ held hs

abbrev pub AreEntered : List PositionEntry → Type 0
AreEntered = All (λ (x : PositionEntry). zero_dec ≤ℤ x.quantity)

abbrev AreHeld : List Holding → Type 0
AreHeld = All (λ (h : Holding). zero_dec ≤ℤ h.1)

swap_sums : (a b c : ℤ) → b +ℤ (a +ℤ c) ≡ a +ℤ (b +ℤ c)
swap_sums a b c = omega int_laws

traded-insert_by_time :
    (x : PositionEntry) (xs : List PositionEntry)
    → traded (insert_by_time x xs) ≡ x.quantity +ℤ traded xs
unfolding traded
traded-insert_by_time x [] = refl
traded-insert_by_time x (y ∷ ys) =
    if_intro (λ zs. traded zs ≡ x.quantity +ℤ (y.quantity +ℤ traded ys))
      (leb x.timestamp y.timestamp) refl
      (ap (λ t. y.quantity +ℤ t) (traded-insert_by_time x ys)
        ∙ swap_sums x.quantity y.quantity (traded ys))

traded-sort_by_time : (xs : List PositionEntry) → traded (sort_by_time xs) ≡ traded xs
unfolding traded
traded-sort_by_time [] = refl
traded-sort_by_time (x ∷ xs) =
    traded-insert_by_time x (sort_by_time xs) ∙ ap (λ t. x.quantity +ℤ t) (traded-sort_by_time xs)

insert_by_time-AreEntered :
    (x : PositionEntry) (xs : List PositionEntry)
    → zero_dec ≤ℤ x.quantity
    → AreEntered xs
    → AreEntered (insert_by_time x xs)
insert_by_time-AreEntered x [] q h = (q, tt)
insert_by_time-AreEntered x (y ∷ ys) q h =
    if_intro AreEntered (leb x.timestamp y.timestamp) (q, h)
      (h.0, insert_by_time-AreEntered x ys q h.1)

sort_by_time-AreEntered : (xs : List PositionEntry) → AreEntered xs → AreEntered (sort_by_time xs)
sort_by_time-AreEntered [] h = tt
sort_by_time-AreEntered (x ∷ xs) h =
    insert_by_time-AreEntered x (sort_by_time xs) h.0 (sort_by_time-AreEntered xs h.1)

held_nonneg : (hs : List Holding) → AreHeld hs → zero_dec ≤ℤ held hs
unfolding held
held_nonneg [] h = omega arith
held_nonneg (x ∷ hs) h = omega (int_laws, h.0, held_nonneg hs h.1)

sell_from-AreHeld : (q : ℤ) (hs : List Holding) → AreHeld hs → AreHeld (sell_from q hs)
sell_from-AreHeld q [] h = tt
sell_from-AreHeld q (x ∷ hs) h =
    if_intro AreHeld (ltb_ℤ zero_dec q)
      (if_cases AreHeld (leb_ℤ x.1 q) (λ e. sell_from-AreHeld (q -ℤ x.1) hs h.1)
        (λ e. (omega (int_laws, leb_ℤ→gt x.1 q e), h.1)))
      h

not_positive : (q : ℤ) → ltb_ℤ zero_dec q ≡ false → q ≤ℤ zero_dec
not_positive q e = ground arith

rest_of : (a q b : ℤ) → q +ℤ pos 1 ≤ℤ a → zero_dec ≤ℤ b → a -ℤ q +ℤ b ≡ max_ℤ zero_dec (a +ℤ b -ℤ q)
rest_of a q b g n =
    let sum : a -ℤ q +ℤ b ≡ a +ℤ b -ℤ q = omega int_laws in
    sum ∙ sym (max_of_le zero_dec (a +ℤ b -ℤ q) (omega (int_laws, g, n)))

whole_of : (a q : ℤ) → zero_dec ≤ℤ q → q ≤ℤ zero_dec → zero_dec ≤ℤ a → a ≡ max_ℤ zero_dec (a -ℤ q)
whole_of a q n m h =
    let same : a ≡ a -ℤ q = omega (int_laws, n, m) in
    same ∙ sym (max_of_le zero_dec (a -ℤ q) (omega (int_laws, h, n, m)))

held-sell_from :
    (q : ℤ) (hs : List Holding)
    → zero_dec ≤ℤ q
    → AreHeld hs
    → held (sell_from q hs) ≡ max_ℤ zero_dec (held hs -ℤ q)
unfolding held
held-sell_from q [] n h = sym (max_of_nonpos (zero_dec -ℤ q) (omega (int_laws, n)))
held-sell_from q (x ∷ hs) n h =
    if_cases (λ rest. held rest ≡ max_ℤ zero_dec ((x.1 +ℤ held hs) -ℤ q)) (ltb_ℤ zero_dec q)
      (λ p.
        if_cases (λ rest. held rest ≡ max_ℤ zero_dec ((x.1 +ℤ held hs) -ℤ q)) (leb_ℤ x.1 q)
          (λ e.
            held-sell_from (q -ℤ x.1) hs (omega (int_laws, leb_ℤ→le x.1 q e)) h.1
            ∙ ap (max_ℤ zero_dec) (omega int_laws))
          (λ e. rest_of x.1 q (held hs) (leb_ℤ→gt x.1 q e) (held_nonneg hs h.1)))
      (λ p. whole_of (x.1 +ℤ held hs) q n (not_positive q p) (held_nonneg (x ∷ hs) h))

sell_all-AreHeld :
    (sells : List PositionEntry) (hs : List Holding) → AreHeld hs → AreHeld (sell_all sells hs)
sell_all-AreHeld [] hs h = h
sell_all-AreHeld (s ∷ sells) hs h =
    sell_all-AreHeld sells (sell_from s.quantity hs) (sell_from-AreHeld s.quantity hs h)

traded_nonneg : (xs : List PositionEntry) → AreEntered xs → zero_dec ≤ℤ traded xs
unfolding traded
traded_nonneg [] h = omega arith
traded_nonneg (x ∷ xs) h = omega (int_laws, h.0, traded_nonneg xs h.1)

sold_twice :
    (a q r : ℤ)
    → zero_dec ≤ℤ r
    → max_ℤ zero_dec (max_ℤ zero_dec (a -ℤ q) -ℤ r) ≡ max_ℤ zero_dec (a -ℤ (q +ℤ r))
sold_twice a q r n = elim (Bool-cases (leb_ℤ zero_dec (a -ℤ q))) [
  | inl enough ↦
      rw (max_of_le zero_dec (a -ℤ q) (leb_ℤ→le zero_dec (a -ℤ q) enough))
        (ap (max_ℤ zero_dec) (omega int_laws))
  | inr short ↦
      let s : a -ℤ q +ℤ pos 1 ≤ℤ zero_dec = leb_ℤ→gt zero_dec (a -ℤ q) short in
      rw (max_of_nonpos (a -ℤ q) (omega (int_laws, s))) (
        max_of_nonpos (zero_dec -ℤ r) (omega (int_laws, n))
        ∙ sym (max_of_nonpos (a -ℤ (q +ℤ r)) (omega (int_laws, s, n))))
]

held-sell_all :
    (sells : List PositionEntry) (hs : List Holding)
    → AreEntered sells
    → AreHeld hs
    → held (sell_all sells hs) ≡ max_ℤ zero_dec (held hs -ℤ traded sells)
unfolding traded
held-sell_all [] hs n h = whole_of (held hs) zero_dec (omega arith) (omega arith) (held_nonneg hs h)
held-sell_all (s ∷ sells) hs n h =
    held-sell_all sells (sell_from s.quantity hs) n.1 (sell_from-AreHeld s.quantity hs h)
    ∙ ap (λ t. max_ℤ zero_dec (t -ℤ traded sells)) (held-sell_from s.quantity hs n.0 h)
    ∙ sold_twice (held hs) s.quantity (traded sells) (traded_nonneg sells n.1)

held-select :
    (hs : List Holding)
    → AreHeld hs
    → held (select (λ (h : Holding). ltb_ℤ zero_dec h.1) hs) ≡ held hs
unfolding held
held-select [] h = refl
held-select (x ∷ hs) h =
    if_cases (λ rest. held rest ≡ x.1 +ℤ held hs) (ltb_ℤ zero_dec x.1)
      (λ e. ap (λ t. x.1 +ℤ t) (held-select hs h.1))
      (λ e. held-select hs h.1 ∙ omega (int_laws, h.0, not_positive x.1 e))

held-map : (xs : List PositionEntry) → held (map holding_of xs) ≡ traded xs
unfolding held traded
held-map [] = refl
held-map (x ∷ xs) = ap (λ t. x.quantity +ℤ t) (held-map xs)

map-AreHeld : (xs : List PositionEntry) → AreEntered xs → AreHeld (map holding_of xs)
map-AreHeld [] h = tt
map-AreHeld (x ∷ xs) h = (h.0, map-AreHeld xs h.1)

-- For positions whose quantities are not negative, in whatever order of their times, what is held of
-- those that were opened after those that were closed is the difference of the two sums of quantities,
-- or nothing if more was closed than opened.
pub held-get_active_holdings :
    (opened closed : List PositionEntry)
    → AreEntered opened
    → AreEntered closed
    → held (get_active_holdings opened closed) ≡ max_ℤ zero_dec (traded opened -ℤ traded closed)
unfolding get_active_holdings
held-get_active_holdings opened closed o c =
    let inventory = map holding_of (sort_by_time opened) in
    let entered = map-AreHeld (sort_by_time opened) (sort_by_time-AreEntered opened o) in
    held-select (sell_all (sort_by_time closed) inventory)
      (sell_all-AreHeld (sort_by_time closed) inventory entered)
    ∙ held-sell_all (sort_by_time closed) inventory (sort_by_time-AreEntered closed c) entered
    ∙ rw (held-map (sort_by_time opened), traded-sort_by_time opened, traded-sort_by_time closed)
        refl
