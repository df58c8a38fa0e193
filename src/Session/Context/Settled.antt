-- ===== src/Session/Context/Settled.antt =====
-- src/trading/session/session_manager.py: the position of a trading context against its lots.
use mathlib.Core.Option.{some-injective}
use mathlib.Core.Path.{subst}
use ml_crypto_trading.Prelude.{
  ℕ, ◌≡◌, sym, ap, ◌∙◌, inl, inr, Bool-cases, true, false, arith, String, some, List, [], ◌∷◌, ◌++◌,
  All,
}
use ml_crypto_trading.Prelude.Int.{ℤ, ◌+ℤ◌, ◌-ℤ◌, ◌≤ℤ◌, max_ℤ, ltb_ℤ, leb_ℤ, int_laws}
use ml_crypto_trading.Prelude.Decimal.{
  DecimalContext, zero_dec, max_of_le, max_of_nonpos, leb_ℤ→le, leb_ℤ→gt,
}
use ml_crypto_trading.Session.Lot.{PositionLot, Trade, create_lot}
use ml_crypto_trading.Session.Matcher.{Matched, match_lots}
use ml_crypto_trading.Session.Matcher.Fifo.{
  total_remaining, total_traded, IsOpen, match_lots-conserves, match_lots-IsFirstIn,
}
use ml_crypto_trading.Session.Context.{
  TradingContext, Fill, record_buy_fill, exit_of, with_exit, settle, record_sell_fill,
}

-- Each lot still holds something, and the position is what the lots hold.
pub record IsSettled (c : TradingContext) : Type 0 where
  pub lots_open : All IsOpen c.position_lots
  pub position : c.position_qty ≡ total_remaining c.position_lots

ltb_ℤ→le : (a b : ℤ) → ltb_ℤ a b ≡ true → a ≤ℤ b
ltb_ℤ→le a b h = ground arith

total_remaining-append :
    (lots : List PositionLot) (lot : PositionLot)
    → total_remaining (lots ++ lot ∷ []) ≡ total_remaining lots +ℤ lot.remaining_quantity
unfolding total_remaining
total_remaining-append [] lot = omega int_laws
total_remaining-append (l ∷ lots) lot = rw (total_remaining-append lots lot) (omega int_laws)

IsOpen-append :
    (lots : List PositionLot) (lot : PositionLot)
    → All IsOpen lots
    → IsOpen lot
    → All IsOpen (lots ++ lot ∷ [])
IsOpen-append [] lot h o = (o, tt)
IsOpen-append (l ∷ lots) lot h o = (h.0, IsOpen-append lots lot h.1 o)

total_remaining_nonneg :
    (lots : List PositionLot) → All IsOpen lots → zero_dec ≤ℤ total_remaining lots
unfolding total_remaining
total_remaining_nonneg [] h = omega arith
total_remaining_nonneg (lot ∷ lots) h =
    omega (int_laws, ltb_ℤ→le zero_dec lot.remaining_quantity h.0, total_remaining_nonneg lots h.1)

-- What is left of a position after an exit: the lots, if the exit is filled, and else nothing.
left_of_exit :
    (before after traded quantity left : ℤ)
    → after +ℤ traded ≡ before
    → traded +ℤ left ≡ quantity
    → zero_dec ≤ℤ left
    → leb_ℤ left zero_dec ≡ true
    → zero_dec ≤ℤ after
    → max_ℤ zero_dec (before -ℤ quantity) ≡ after
left_of_exit before after traded quantity left b q l e a =
    let difference : before -ℤ quantity ≡ after =
      rw (← b) (rw (← q) (omega (int_laws, leb_ℤ→le left zero_dec e))) in
    rw difference (max_of_le zero_dec after a)

nothing_left :
    (before traded quantity left : ℤ)
    → zero_dec +ℤ traded ≡ before
    → traded +ℤ left ≡ quantity
    → leb_ℤ left zero_dec ≡ false
    → max_ℤ zero_dec (before -ℤ quantity) ≡ zero_dec
nothing_left before traded quantity left b q e =
    max_of_nonpos (before -ℤ quantity)
      (rw (← b) (rw (← q) (omega (int_laws, leb_ℤ→gt left zero_dec e))))

module _ (decimals : DecimalContext) where
  -- A buy of a positive quantity keeps the position equal to what the lots hold, and all lots open.
  pub record_buy_fill-IsSettled :
      (lot_id : String) (f : Fill) (c : TradingContext)
      → ltb_ℤ zero_dec f.quantity ≡ true
      → IsSettled c
      → IsSettled (record_buy_fill decimals lot_id f c)
  unfolding record_buy_fill create_lot
  record_buy_fill-IsSettled lot_id f c h s = rw h (record {
    lots_open = IsOpen-append c.position_lots _ s.lots_open h;
    position =
        ap (λ p. p +ℤ f.quantity) s.position ∙ sym (total_remaining-append c.position_lots _);
  })

  matched_position :
      (f : Fill) (c : TradingContext) (m : Matched)
      → zero_dec ≤ℤ f.quantity
      → IsSettled c
      → total_remaining m.lots +ℤ total_traded m.completed_trades ≡ total_remaining c.position_lots
      → total_traded m.completed_trades +ℤ m.sell_remaining ≡ f.quantity
      → zero_dec ≤ℤ m.sell_remaining
      → All IsOpen m.lots
      → (leb_ℤ m.sell_remaining zero_dec ≡ false → m.lots ≡ [])
      → max_ℤ zero_dec (c.position_qty -ℤ f.quantity) ≡ total_remaining m.lots
  unfolding total_remaining
  matched_position f c m h s lots exit left o exhausted =
      elim (Bool-cases (leb_ℤ m.sell_remaining zero_dec)) [
        | inl filled ↦ rw s.position (
            left_of_exit _ _ _ f.quantity m.sell_remaining lots exit left filled
              (total_remaining_nonneg m.lots o))
        | inr short ↦
            let empty : total_remaining m.lots ≡ zero_dec = ap total_remaining (exhausted short) in
            rw (s.position, empty)
              (nothing_left _ (total_traded m.completed_trades) f.quantity m.sell_remaining
                (ap (λ a. a +ℤ total_traded m.completed_trades) (sym empty) ∙ lots) exit short)
      ]

  -- What the matcher leaves of a settled context's lots.
  pub record Sold (new_id : ℕ → String) (f : Fill) (c : TradingContext) : Type 0 where
    pub m : Matched
    pub runs :
        match_lots decimals new_id (exit_of decimals f (with_exit decimals f c)) c.position_lots
        ≡ some m
    pub lots :
        total_remaining m.lots +ℤ total_traded m.completed_trades ≡ total_remaining c.position_lots
    pub exit : total_traded m.completed_trades +ℤ m.sell_remaining ≡ f.quantity
    pub left : zero_dec ≤ℤ f.quantity → zero_dec ≤ℤ m.sell_remaining
    pub open_lots : All IsOpen m.lots
    pub exhausted : leb_ℤ m.sell_remaining zero_dec ≡ false → m.lots ≡ []

  pub matched_lots :
      (new_id : ℕ → String) (f : Fill) (c : TradingContext) → IsSettled c → Sold new_id f c
  matched_lots new_id f c s =
      let x = exit_of decimals f (with_exit decimals f c) in
      let (m, runs, lots, exit, left) = match_lots-conserves decimals new_id x c.position_lots in
      let (m', runs', fills, open_lots, exhausted) =
        match_lots-IsFirstIn decimals new_id x c.position_lots s.lots_open in
      let same : m' ≡ m = some-injective _ _ (sym runs' ∙ runs) in
      record {
        m = m;
        runs = runs;
        lots = lots;
        exit = exit;
        left = left;
        open_lots = subst (λ (k : Matched). All IsOpen k.lots) same open_lots;
        exhausted =
            subst (λ (k : Matched). leb_ℤ k.sell_remaining zero_dec ≡ false → k.lots ≡ []) same
              exhausted;
      }

  -- A sale of a quantity that is not negative returns, whatever the position is, and keeps the position
  -- equal to what the lots hold, and all lots open.
  pub record_sell_fill-IsSettled :
      (new_id : ℕ → String) (f : Fill) (c : TradingContext)
      → zero_dec ≤ℤ f.quantity
      → IsSettled c
      → (r : TradingContext × List Trade) × (record_sell_fill decimals new_id f c ≡ some r)
        × IsSettled r.0
  unfolding record_sell_fill
  record_sell_fill-IsSettled new_id f c h s =
      let sold = matched_lots new_id f c s in
      (
        _,
        ap (settle decimals f c) sold.runs,
        record {
          lots_open = sold.open_lots;
          position =
              matched_position f c sold.m h s sold.lots sold.exit (sold.left h) sold.open_lots
                sold.exhausted;
        },
      )
