-- ===== src/Session/Matcher/Fifo.antt =====
-- src/trading/session/fifo_trade_matcher.py against the first-in first-out rule and the sums of
-- quantities.
use ml_crypto_trading.Prelude.{
  ℕ, zero, suc, ◌<◌, arith, String, some, List, [], ◌∷◌, ◌++◌, map, length, All, ◌≡◌, refl, sym, ap,
  ◌∙◌, ◌⊎◌, inl, inr, true, false, if◌then◌else◌, Bool-cases,
}
use mathlib.Core.List.{append-nil}
use ml_crypto_trading.Prelude.Int.{ℤ, ◌+ℤ◌, ◌-ℤ◌, min_ℤ, leb_ℤ, ltb_ℤ, ◌≤ℤ◌, int_laws, +ℤ_assoc}
use ml_crypto_trading.Prelude.Decimal.{
  DecimalContext, zero_dec, min_le_left, min_le_right, ltb_ℤ-not,
}
use ml_crypto_trading.Session.Lot.{PositionLot, Trade, create_trade}
use ml_crypto_trading.Session.Matcher.{Exit, Matched, trade_of, take_from, match_loop, match_lots}

-- The quantity that a list of lots still holds, and the quantity that a list of trades closes.
unfoldable pub total_remaining : List PositionLot → ℤ
total_remaining [] = zero_dec
total_remaining (lot ∷ lots) = lot.remaining_quantity +ℤ total_remaining lots

unfoldable pub total_traded : List Trade → ℤ
total_traded [] = zero_dec
total_traded (t ∷ ts) = t.quantity +ℤ total_traded ts

-- The first-in first-out rule: each lot in turn gives what is wanted and what it has.
unfoldable pub fifo : List PositionLot → ℤ → List (String × ℤ)
fifo [] q = []
fifo (lot ∷ lots) q =
    let matched_qty = min_ℤ q lot.remaining_quantity in
    let rest = fifo lots (q -ℤ matched_qty) in
    if leb_ℤ q zero_dec then [] else (lot.order_uuid, matched_qty) ∷ rest

abbrev pub fill : Trade → String × ℤ
fill t = (t.entry_order_uuid, t.quantity)

abbrev pub IsOpen : PositionLot → Type 0
IsOpen lot = ltb_ℤ zero_dec lot.remaining_quantity ≡ true

-- All that goes in comes out again.
pub record IsConserved (lots : List PositionLot) (exit_quantity : ℤ) (done : List Trade)
    (m : Matched) : Type 0 where
  pub lots_lem :
      total_remaining m.lots +ℤ total_traded m.completed_trades
      ≡ total_remaining lots +ℤ total_traded done
  pub exit_lem :
      total_traded m.completed_trades +ℤ m.sell_remaining ≡ total_traded done +ℤ exit_quantity
  pub left_lem : zero_dec ≤ℤ exit_quantity → zero_dec ≤ℤ m.sell_remaining

total_traded-append :
    (done : List Trade) (t : Trade)
    → total_traded (done ++ t ∷ []) ≡ total_traded done +ℤ t.quantity
unfolding total_traded
total_traded-append [] t = omega int_laws
total_traded-append (d ∷ done) t =
    ap (λ s. d.quantity +ℤ s) (total_traded-append done t)
    ∙ sym (+ℤ_assoc d.quantity (total_traded done) t.quantity)

-- The loop ends at once, or it has a round for each lot.
unfoldable Enough : ℕ → List PositionLot → ℤ → Type 0
Enough fuel lots s = (leb_ℤ s zero_dec ≡ true × 0 < fuel) ⊎ (length lots < fuel)

spent_exactly :
    (s r : ℤ) → leb_ℤ (r -ℤ min_ℤ s r) zero_dec ≡ false → leb_ℤ (s -ℤ min_ℤ s r) zero_dec ≡ true
unfolding min_ℤ ◌-ℤ◌
spent_exactly s r h = ground arith

used_up : (r q : ℤ) → q ≤ℤ r → leb_ℤ (r -ℤ q) zero_dec ≡ true → q ≡ r
unfolding ◌-ℤ◌
used_up r q h h2 = ground arith

swap_add : (a b q : ℤ) → a +ℤ (b +ℤ q) ≡ a +ℤ q +ℤ b
swap_add a b q = omega int_laws

take_back : (a s q : ℤ) → a +ℤ q +ℤ (s -ℤ q) ≡ a +ℤ s
take_back a s q = omega int_laws

fifo_nothing : (lots : List PositionLot) (s : ℤ) → leb_ℤ s zero_dec ≡ true → fifo lots s ≡ []
unfolding fifo
fifo_nothing [] s h = refl
fifo_nothing (lot ∷ lots) s h = rw h refl

plus_nothing : (a : ℤ) → a +ℤ zero_dec ≡ a
plus_nothing a = omega int_laws

nothing_plus : (a : ℤ) → zero_dec +ℤ a ≡ a
nothing_plus a = omega int_laws

fills-append :
    (done : List Trade) (t : Trade) (rest : List (String × ℤ))
    → map fill (done ++ t ∷ []) ++ rest ≡ map fill done ++ fill t ∷ rest
fills-append [] t rest = refl
fills-append (d ∷ done) t rest = ap (λ fs. fill d ∷ fs) (fills-append done t rest)

-- The trades follow the rule, lots that are kept still hold something, and an exit that is not
-- filled leaves no lot.
pub record IsFirstIn (lots : List PositionLot) (exit_quantity : ℤ) (done : List Trade) (m : Matched)
    : Type 0 where
  pub fills_lem : map fill m.completed_trades ≡ map fill done ++ fifo lots exit_quantity
  pub lots_open : All IsOpen m.lots
  pub exhausted : leb_ℤ m.sell_remaining zero_dec ≡ false → m.lots ≡ []

module _ (ctx : DecimalContext) (new_id : ℕ → String) (x : Exit) where
  take_from-total :
      (lot : PositionLot) (q : ℤ) (lots : List PositionLot)
      → q ≤ℤ lot.remaining_quantity
      → total_remaining (take_from ctx new_id x lot q lots) +ℤ q
        ≡ lot.remaining_quantity +ℤ total_remaining lots
  unfolding total_remaining
  take_from-total lot q lots h = elim (Bool-cases (leb_ℤ (lot.remaining_quantity -ℤ q) zero_dec)) [
    | inl gone ↦ rw (gone, used_up lot.remaining_quantity q h gone) (omega int_laws)
    | inr kept ↦ rw kept (omega int_laws)
  ]

  Enough-step :
      (fuel : ℕ) (lot : PositionLot) (lots : List PositionLot) (s : ℤ)
      → Enough (suc fuel) (lot ∷ lots) s
      → leb_ℤ s zero_dec ≡ false
      → Enough fuel
          (take_from ctx new_id x lot (min_ℤ s lot.remaining_quantity) lots)
          (s -ℤ min_ℤ s lot.remaining_quantity)
  unfolding Enough
  Enough-step fuel lot lots s h e =
      elim (Bool-cases
        (leb_ℤ (lot.remaining_quantity -ℤ min_ℤ s lot.remaining_quantity) zero_dec)) [
          | inl gone ↦ rw gone (inr (ground arith))
          | inr kept ↦ inl (spent_exactly s lot.remaining_quantity kept, ground arith)
        ]

  trade_of-quantity :
      (n : ℕ) (lot : PositionLot) (q : ℤ) → (trade_of ctx new_id x n lot q).quantity ≡ q
  unfolding trade_of create_trade
  trade_of-quantity n lot q = refl

  trade_of-fill :
      (n : ℕ) (lot : PositionLot) (q : ℤ)
      → fill (trade_of ctx new_id x n lot q) ≡ (lot.order_uuid, q)
  unfolding trade_of create_trade
  trade_of-fill n lot q = refl

  -- One round keeps the two balances.
  round-IsConserved :
      (lot : PositionLot) (lots : List PositionLot) (s : ℤ) (done : List Trade) (m : Matched)
      (q : ℤ) (n : ℕ)
      → q ≤ℤ lot.remaining_quantity
      → q ≤ℤ s
      → IsConserved
          (take_from ctx new_id x lot q lots)
          (s -ℤ q)
          (done ++ trade_of ctx new_id x n lot q ∷ [])
          m
      → IsConserved (lot ∷ lots) s done m
  unfolding total_remaining trade_of create_trade
  round-IsConserved lot lots s done m q n h b c =
      let kept = take_from-total lot q lots h in
      let traded = total_traded-append done (trade_of ctx new_id x n lot q) in
      record {
        lots_lem = c.lots_lem ∙ rw traded (rw (sym kept) (swap_add _ _ q));
        exit_lem = c.exit_lem ∙ rw traded (take_back _ s q);
        left_lem = λ _. c.left_lem (omega int_laws);
      }

  loop-IsConserved :
      (fuel : ℕ) (lots : List PositionLot) (s : ℤ) (done : List Trade)
      → Enough fuel lots s
      → (m : Matched) × (match_loop ctx new_id x fuel lots s done ≡ some m)
        × IsConserved lots s done m
  unfolding match_loop Enough
  loop-IsConserved zero lots s done h = ground arith
  loop-IsConserved (suc fuel) [] s done h =
      (_, refl, record { lots_lem = refl; exit_lem = refl; left_lem = λ h'. h' })
  loop-IsConserved (suc fuel) (lot ∷ lots) s done h = elim (Bool-cases (leb_ℤ s zero_dec)) [
    | inl stop ↦ rw stop (_, refl, record { lots_lem = refl; exit_lem = refl; left_lem = λ h'. h' })
    | inr go ↦
        let q = min_ℤ s lot.remaining_quantity in
        let t = trade_of ctx new_id x (length done) lot q in
        let rec =
          loop-IsConserved fuel (take_from ctx new_id x lot q lots) (s -ℤ q) (done ++ t ∷ [])
            (Enough-step fuel lot lots s h go) in
        rw go (
          rec.0,
          rec.1,
          round-IsConserved lot lots s done rec.0 q (length done)
              (min_le_right s lot.remaining_quantity) (min_le_left s lot.remaining_quantity) rec.2,
        )
  ]

  take_from-IsOpen :
      (lot : PositionLot) (q : ℤ) (lots : List PositionLot)
      → All IsOpen lots
      → All IsOpen (take_from ctx new_id x lot q lots)
  take_from-IsOpen lot q lots h = elim (Bool-cases (leb_ℤ (lot.remaining_quantity -ℤ q) zero_dec)) [
    | inl gone ↦ rw gone h
    | inr kept ↦ rw kept (rw (ltb_ℤ-not, kept) refl, h)
  ]

  take_from-fifo :
      (lot : PositionLot) (s : ℤ) (lots : List PositionLot)
      → fifo
          (take_from ctx new_id x lot (min_ℤ s lot.remaining_quantity) lots)
          (s -ℤ min_ℤ s lot.remaining_quantity)
        ≡ fifo lots (s -ℤ min_ℤ s lot.remaining_quantity)
  take_from-fifo lot s lots =
      elim (Bool-cases
        (leb_ℤ (lot.remaining_quantity -ℤ min_ℤ s lot.remaining_quantity) zero_dec)) [
          | inl gone ↦ rw gone refl
          | inr kept ↦
              let spent = spent_exactly s lot.remaining_quantity kept in
              rw kept (fifo_nothing _ _ spent ∙ sym (fifo_nothing lots _ spent))
        ]

  loop-IsFirstIn :
      (fuel : ℕ) (lots : List PositionLot) (s : ℤ) (done : List Trade)
      → Enough fuel lots s
      → All IsOpen lots
      → (m : Matched) × (match_loop ctx new_id x fuel lots s done ≡ some m)
        × IsFirstIn lots s done m
  unfolding match_loop Enough fifo trade_of create_trade
  loop-IsFirstIn zero lots s done h o = ground arith
  loop-IsFirstIn (suc fuel) [] s done h o = (
    _,
    refl,
    record { fills_lem = sym (append-nil (map fill done)); lots_open = o; exhausted = λ _. refl },
  )
  loop-IsFirstIn (suc fuel) (lot ∷ lots) s done h o = elim (Bool-cases (leb_ℤ s zero_dec)) [
    | inl stop ↦ rw stop (
      _,
      refl,
      record {
        fills_lem = rw stop (sym (append-nil (map fill done)));
        lots_open = o;
        exhausted = λ e. cc;
      },
    )
    | inr go ↦
        let q = min_ℤ s lot.remaining_quantity in
        let t = trade_of ctx new_id x (length done) lot q in
        let rec =
          loop-IsFirstIn fuel (take_from ctx new_id x lot q lots) (s -ℤ q) (done ++ t ∷ [])
            (Enough-step fuel lot lots s h go) (take_from-IsOpen lot q lots o.1) in
        rw go (
          rec.0,
          rec.1,
          record {
            fills_lem =
                rec.2.fills_lem
                ∙ rw go (
                    ap (λ fs. map fill (done ++ t ∷ []) ++ fs) (take_from-fifo lot s lots)
                    ∙ fills-append done t (fifo lots (s -ℤ q)));
            lots_open = rec.2.lots_open;
            exhausted = rec.2.exhausted;
          },
        )
  ]

  -- `match_lots` returns for any lots and any exit. What the lots still hold afterwards and what the
  -- trades close is together what the lots held before, and what the trades close and what is left
  -- to sell is together the quantity of the exit; what is left is not negative if the exit is not.
  pub match_lots-conserves :
      (lots : List PositionLot)
      → (m : Matched) × (match_lots ctx new_id x lots ≡ some m)
        × (total_remaining m.lots +ℤ total_traded m.completed_trades ≡ total_remaining lots)
        × (total_traded m.completed_trades +ℤ m.sell_remaining ≡ x.exit_quantity)
        × (zero_dec ≤ℤ x.exit_quantity → zero_dec ≤ℤ m.sell_remaining)
  unfolding match_lots Enough total_traded
  match_lots-conserves lots =
      let run = loop-IsConserved (suc (length lots)) lots x.exit_quantity [] (inr (omega arith)) in
      (
        run.0,
        run.1,
        run.2.lots_lem ∙ plus_nothing (total_remaining lots),
        run.2.exit_lem ∙ nothing_plus x.exit_quantity,
        run.2.left_lem,
      )

  -- For lots that each still hold something, `match_lots` returns the trades of the first-in
  -- first-out rule: their lots and quantities, in order, are those of `fifo`. Each lot that it keeps
  -- still holds something, and if some of the exit is left to sell then it keeps no lot.
  pub match_lots-IsFirstIn :
      (lots : List PositionLot)
      → All IsOpen lots
      → (m : Matched) × (match_lots ctx new_id x lots ≡ some m)
        × (map fill m.completed_trades ≡ fifo lots x.exit_quantity)
        × All IsOpen m.lots
        × (leb_ℤ m.sell_remaining zero_dec ≡ false → m.lots ≡ [])
  unfolding match_lots Enough
  match_lots-IsFirstIn lots h =
      let run = loop-IsFirstIn (suc (length lots)) lots x.exit_quantity [] (inr (omega arith)) h in
      (run.0, run.1, run.2.fills_lem, run.2.lots_open, run.2.exhausted)
