-- ===== src/Portfolio/Book/Ledger.antt =====
-- src/trading/protection/quote_portfolio.py: reserved cash against the open orders.
pub mod Reconcile
use ml_crypto_trading.Prelude.{
  ◌+◌, ◌≤◌, ◌≡◌, refl, sym, ap, ◌∙◌, inl, inr, true, false, Bool-cases, Option, none, some, String,
  arith, if◌then◌else◌,
}
use ml_crypto_trading.Prelude.Int.{
  ℤ, pos, ◌+ℤ◌, ◌-ℤ◌, ◌≤ℤ◌, max_ℤ, leb_ℤ, ltb_ℤ, +ℤ_cancel, int_laws,
}
use ml_crypto_trading.Prelude.Decimal.{
  zero_dec, max_of_le, max_nonneg, max_of_nonpos, leb_ℤ→le, leb_ℤ→gt, ltb_ℤ-not,
}
use ml_crypto_trading.Prelude.Dict.{
  lookup, insert, erase, insert-IsValid, erase-IsValid, erase-insert_new, erase_missing,
  lookup-insert_self,
}
use ml_crypto_trading.Prelude.Text.{String-discrete}
use ml_crypto_trading.Portfolio.Book.{
  QuotePortfolio, available_cash, reserve_cash, release_held, release_cash,
}
use ml_crypto_trading.Portfolio.Book.Reservations.{
  total_reserved, IsReserved, total_reserved_nonneg, total_reserved-insert_new,
  total_reserved-erase,
}

pub record IsBalanced (p : QuotePortfolio) : Type 0 where
  pub orders : IsReserved p.open_orders
  pub reserved : p.reserved_cash ≡ total_reserved p.open_orders

module _ (uuid : String) (amount : ℤ) (p : QuotePortfolio) where
  reserve_granted :
      lookup String-discrete uuid p.open_orders ≡ none
      → IsBalanced p
      → leb_ℤ amount zero_dec ≡ false
      → IsBalanced (record p {
        reserved_cash = p.reserved_cash +ℤ amount;
        open_orders = insert String-discrete uuid amount p.open_orders;
      })
  reserve_granted fresh h positive = record {
    orders =
        insert-IsValid String-discrete _ uuid amount p.open_orders
          (omega (int_laws, leb_ℤ→gt amount zero_dec positive)) h.orders;
    reserved =
        ap (λ r. r +ℤ amount) h.reserved
        ∙ sym (total_reserved-insert_new uuid amount p.open_orders fresh);
  }

  reserve_nothing :
      leb_ℤ amount zero_dec ≡ true → p.reserved_cash ≡ p.reserved_cash +ℤ max_ℤ zero_dec amount
  reserve_nothing small =
      rw (max_of_nonpos amount (leb_ℤ→le amount zero_dec small)) (omega int_laws)

  reserve_positive :
      leb_ℤ amount zero_dec ≡ false
      → p.reserved_cash +ℤ amount ≡ p.reserved_cash +ℤ max_ℤ zero_dec amount
  reserve_positive positive =
      ap (λ a. p.reserved_cash +ℤ a)
        (sym (max_of_le zero_dec amount (omega (int_laws, leb_ℤ→gt amount zero_dec positive))))

  -- A reservation for an order that holds none keeps the balance. It is granted exactly if the
  -- amount is within the available cash; granted, it adds the amount to the reserved cash if that is
  -- positive, and otherwise nothing changes.
  pub reserve_cash-IsBalanced :
      lookup String-discrete uuid p.open_orders ≡ none
      → IsBalanced p
      → let (p', granted) = reserve_cash uuid amount p in
        IsBalanced p'
        × (granted ≡ leb_ℤ amount (available_cash p))
        × (p'.reserved_cash
            ≡ (if granted then p.reserved_cash +ℤ max_ℤ zero_dec amount else p.reserved_cash))
  unfolding reserve_cash
  reserve_cash-IsBalanced fresh h =
      let available = max_nonneg (p.total_cash -ℤ p.reserved_cash) in
      elim (Bool-cases (leb_ℤ amount zero_dec)) [
        | inl small ↦ rw small (h, ground arith, reserve_nothing small)
        | inr positive ↦ elim (Bool-cases (leb_ℤ amount (available_cash p))) [
          | inl fits ↦
              rw (positive, ltb_ℤ-not, fits)
                (reserve_granted fresh h positive, refl, reserve_positive positive)
          | inr short ↦ rw (positive, ltb_ℤ-not, short) (h, refl, refl)
        ]
      ]

-- Releasing an order returns what it held and takes exactly that off the reserved cash; an order
-- that holds nothing changes nothing.
release_held-IsBalanced :
    (uuid : String) (p : QuotePortfolio) (held : Option ℤ)
    → lookup String-discrete uuid p.open_orders ≡ held
    → IsBalanced p
    → let (p', amount) = release_held held uuid p in
      IsBalanced p'
      × (p'.reserved_cash +ℤ amount ≡ p.reserved_cash)
      × (p'.open_orders ≡ erase String-discrete uuid p.open_orders)
unfolding release_held
release_held-IsBalanced uuid p none e h =
    (h, omega int_laws, sym (erase_missing String-discrete uuid p.open_orders e))
release_held-IsBalanced uuid p (some amount) e h =
    let orders = erase-IsValid String-discrete _ uuid p.open_orders h.orders in
    let rest = total_reserved-erase uuid amount p.open_orders h.orders e in
    let T = total_reserved (erase String-discrete uuid p.open_orders) in
    let left : p.reserved_cash -ℤ amount ≡ T = rw (h.reserved, ← rest) (+ℤ_cancel T amount) in
    let exact : max_ℤ zero_dec (p.reserved_cash -ℤ amount) ≡ T =
      rw left (max_of_le zero_dec T (total_reserved_nonneg _ orders)) in
    (record { orders = orders; reserved = exact }, rw exact (rest ∙ sym h.reserved), refl)

-- Releasing an order returns what it held and takes exactly that off the reserved cash, whether it
-- held anything or not, and keeps the balance; the order then holds nothing.
pub release_cash-IsBalanced :
    (uuid : String) (p : QuotePortfolio)
    → IsBalanced p
    → let (p', amount) = release_cash uuid p in
      IsBalanced p'
      × (p'.reserved_cash +ℤ amount ≡ p.reserved_cash)
      × (p'.open_orders ≡ erase String-discrete uuid p.open_orders)
unfolding release_cash
release_cash-IsBalanced uuid p h =
    release_held-IsBalanced uuid p (lookup String-discrete uuid p.open_orders) refl h

-- The portfolio after a reservation that was granted.
abbrev with_order : String → ℤ → QuotePortfolio → QuotePortfolio
with_order uuid amount p = record p {
  reserved_cash = p.reserved_cash +ℤ amount;
  open_orders = insert String-discrete uuid amount p.open_orders;
}

reserve_fits :
    (uuid : String) (amount : ℤ) (p : QuotePortfolio)
    → pos 1 ≤ℤ amount
    → amount ≤ℤ available_cash p
    → (reserve_cash uuid amount p).0 ≡ with_order uuid amount p
unfolding reserve_cash
reserve_fits uuid amount p positive fits =
    let pays : leb_ℤ amount zero_dec ≡ false = ground arith in
    let room : ltb_ℤ (available_cash p) amount ≡ false = ground arith in rw (pays, room)

release_reserved :
    (uuid : String) (amount : ℤ) (p : QuotePortfolio)
    → lookup String-discrete uuid p.open_orders ≡ none
    → pos 0 ≤ℤ p.reserved_cash
    → release_cash uuid (with_order uuid amount p) ≡ (p, amount)
unfolding release_cash
release_reserved uuid amount p fresh h =
    let reserved : max_ℤ zero_dec (p.reserved_cash +ℤ amount -ℤ amount) ≡ p.reserved_cash =
      rw (+ℤ_cancel p.reserved_cash amount) (max_of_le zero_dec p.reserved_cash h) in
    let orders = erase-insert_new String-discrete uuid amount p.open_orders fresh in
    rw (lookup-insert_self String-discrete uuid amount p.open_orders)
      (λ i. (record p { reserved_cash = reserved i; open_orders = orders i }, amount))

-- Releasing what was just reserved for a new order restores the portfolio, and returns the amount.
release_cash-reserve_cash :
    (uuid : String) (amount : ℤ) (p : QuotePortfolio)
    → lookup String-discrete uuid p.open_orders ≡ none
    → IsBalanced p
    → pos 1 ≤ℤ amount
    → amount ≤ℤ available_cash p
    → release_cash uuid (reserve_cash uuid amount p).0 ≡ (p, amount)
release_cash-reserve_cash uuid amount p fresh h positive fits =
    ap (λ q. release_cash uuid q) (reserve_fits uuid amount p positive fits)
    ∙ release_reserved uuid amount p fresh
        (rw h.reserved (total_reserved_nonneg p.open_orders h.orders))
