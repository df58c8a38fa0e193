-- ===== src/Session/Context/Profit.antt =====
-- src/trading/session/session_manager.py: the realised profit of a trading context against its trades.
use mathlib.Core.Path.{subst}
use ml_crypto_trading.Prelude.{
  ℕ, ◌≡◌, sym, ap, ◌∙◌, inl, inr, Bool-cases, true, false, String, some, List, [], ◌∷◌, ◌++◌,
  if◌then◌else◌,
}
use ml_crypto_trading.Prelude.Int.{ℤ, ◌+ℤ◌, ◌≤ℤ◌, ltb_ℤ, leb_ℤ, int_laws, +ℤ_assoc}
use ml_crypto_trading.Prelude.Decimal.{DecimalContext, zero_dec, leb_ℤ→gt, ltb_ℤ-not}
use ml_crypto_trading.Session.Lot.{Trade}
use ml_crypto_trading.Session.Matcher.Fifo.{total_remaining}
use ml_crypto_trading.Session.Context.{
  TradingContext, Fill, add_net, fallback_pnl, with_exit, settle, record_sell_fill,
}
use ml_crypto_trading.Session.Context.Settled.{IsSettled, matched_lots}

-- The sum of the net profits of a list of trades.
unfoldable pub total_net : List Trade → ℤ
total_net [] = zero_dec
total_net (t ∷ ts) = t.net_pnl +ℤ total_net ts

abbrev pub IsBooked : TradingContext → Type 0
IsBooked c = c.realized_pnl ≡ total_net c.trades

add_net_lem : (pnl : ℤ) (ts : List Trade) → add_net pnl ts ≡ pnl +ℤ total_net ts
unfolding total_net
add_net_lem pnl [] = omega int_laws
add_net_lem pnl (t ∷ ts) = add_net_lem (pnl +ℤ t.net_pnl) ts ∙ +ℤ_assoc pnl t.net_pnl (total_net ts)

total_net-append : (xs ys : List Trade) → total_net (xs ++ ys) ≡ total_net xs +ℤ total_net ys
unfolding total_net
total_net-append [] ys = omega int_laws
total_net-append (x ∷ xs) ys =
    ap (λ s. x.net_pnl +ℤ s) (total_net-append xs ys)
    ∙ sym (+ℤ_assoc x.net_pnl (total_net xs) (total_net ys))

none_unsold :
    (after traded left : ℤ)
    → after ≡ zero_dec
    → leb_ℤ left zero_dec ≡ false
    → traded +ℤ left ≤ℤ after +ℤ traded
    → ⊥
none_unsold after traded left e short h =
    omega (int_laws, leb_ℤ→gt left zero_dec short, subst (λ a. traded +ℤ left ≤ℤ a +ℤ traded) e h)

-- An exit within what the lots hold leaves nothing to sell.
nothing_unsold :
    (before after traded quantity left : ℤ)
    → after +ℤ traded ≡ before
    → traded +ℤ left ≡ quantity
    → quantity ≤ℤ before
    → (leb_ℤ left zero_dec ≡ false → after ≡ zero_dec)
    → leb_ℤ left zero_dec ≡ true
nothing_unsold before after traded quantity left b q within e =
    elim (Bool-cases (leb_ℤ left zero_dec)) [
      | inl filled ↦ filled
      | inr short ↦ absurd (none_unsold after traded left (e short) short (rw (q, b) within))
    ]

filled_pnl :
    (pnl fallback left : ℤ) (before matched : List Trade)
    → leb_ℤ left zero_dec ≡ true
    → pnl ≡ total_net before
    → (if ltb_ℤ zero_dec left then add_net pnl matched +ℤ fallback else add_net pnl matched)
      ≡ total_net (before ++ matched)
filled_pnl pnl fallback left before matched filled booked =
    rw (ltb_ℤ-not zero_dec left, filled)
      (add_net_lem pnl matched
        ∙ ap (λ p. p +ℤ total_net matched) booked
        ∙ sym (total_net-append before matched))

module _ (decimals : DecimalContext) where
  -- A sale of at most the position of a settled context keeps the realised profit equal to the sum of
  -- the net profits of the recorded trades.
  pub record_sell_fill-IsBooked :
      (new_id : ℕ → String) (f : Fill) (c : TradingContext)
      → IsSettled c
      → f.quantity ≤ℤ c.position_qty
      → IsBooked c
      → (r : TradingContext × List Trade) × (record_sell_fill decimals new_id f c ≡ some r)
        × IsBooked r.0
  unfolding record_sell_fill total_remaining
  record_sell_fill-IsBooked new_id f c s within booked =
      let sold = matched_lots decimals new_id f c s in
      (
        _,
        ap (settle decimals f c) sold.runs,
        filled_pnl c.realized_pnl
            (fallback_pnl decimals f (with_exit decimals f c) sold.m.sell_remaining)
            sold.m.sell_remaining c.trades sold.m.completed_trades
            (nothing_unsold _ _ _ f.quantity sold.m.sell_remaining sold.lots sold.exit
              (subst (λ p. f.quantity ≤ℤ p) s.position within)
              (λ short. ap total_remaining (sold.exhausted short)))
            booked,
      )
