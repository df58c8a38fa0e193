-- ===== src/Portfolio/Book/Ledger/Reconcile.antt =====
-- src/trading/protection/quote_portfolio.py: `reconcile_orders` and the set of active orders.
use ml_crypto_trading.Prelude.{
  ◌≡◌, refl, ◌∙◌, inl, inr, Bool-cases, Bool, not, none, String, List, [], ◌∷◌, select, arith,
  if◌then◌else◌,
}
use ml_crypto_trading.Prelude.Int.{ℤ, ◌+ℤ◌, int_laws}
use ml_crypto_trading.Prelude.Decimal.{zero_dec}
use ml_crypto_trading.Prelude.Dict.{Dict, keys, lookup, contains, erase, lookup-erase}
use ml_crypto_trading.Prelude.Text.{String-discrete}
use ml_crypto_trading.Portfolio.Book.{QuotePortfolio, release_cash, release_all, reconcile_orders}
use ml_crypto_trading.Portfolio.Book.Ledger.{IsBalanced, release_cash-IsBalanced}

erase_all : List String → Dict String ℤ → Dict String ℤ
erase_all [] d = d
erase_all (k ∷ ks) d = erase_all ks (erase String-discrete k d)

-- What `release_all` has done to `p`, having counted `before` already.
record Released (p : QuotePortfolio) (before : ℤ) (uuids : List String) (r : QuotePortfolio × ℤ)
    : Type 0 where
  balanced : IsBalanced r.0
  conserved : r.0.reserved_cash +ℤ r.1 ≡ p.reserved_cash +ℤ before
  left : r.0.open_orders ≡ erase_all uuids p.open_orders

regroup : (r r' before amount : ℤ) → r' +ℤ amount ≡ r → r' +ℤ (before +ℤ amount) ≡ r +ℤ before
regroup r r' before amount h = rw (← h) (omega int_laws)

release_all_lem :
    (uuids : List String) (before : ℤ) (p : QuotePortfolio)
    → IsBalanced p
    → Released p before uuids (release_all uuids before p)
unfolding release_all erase_all
release_all_lem [] before p h = record { balanced = h; conserved = refl; left = refl }
release_all_lem (uuid ∷ uuids) before p h =
    let (p', amount) = release_cash uuid p in
    let one = release_cash-IsBalanced uuid p h in
    let rest = release_all_lem uuids (before +ℤ amount) p' one.0 in
    record {
      balanced = rest.balanced;
      conserved = rest.conserved ∙ regroup p.reserved_cash p'.reserved_cash before amount one.1;
      left = rest.left ∙ rw one.2;
    }

module _ (is_active : String → Bool) where
  abbrev orphaned : Dict String ℤ → List String
  orphaned d = select (λ uuid. not (is_active uuid)) (keys d)

  lookup-erase_all :
      (j : String) (d e : Dict String ℤ)
      → lookup String-discrete j (erase_all (orphaned d) e) ≡ (
          if is_active j
          then lookup String-discrete j e
          else if contains String-discrete j d
          then none
          else lookup String-discrete j e)
  unfolding erase_all
  lookup-erase_all j [] e = ground arith
  lookup-erase_all j ((k, v) ∷ d) e = elim (Bool-cases (is_active k)) [
    | inl active ↦ rw active (lookup-erase_all j d e ∙ ground arith)
    | inr orphan ↦ rw orphan (
        lookup-erase_all j d (erase String-discrete k e)
        ∙ ground (arith, lookup-erase String-discrete k j e))
  ]

  -- Reconciling with the set of active orders keeps the balance, returns exactly what it takes off
  -- the reserved cash, and leaves each active order as it was and nothing of the others.
  pub reconcile_orders_lem :
      (p : QuotePortfolio)
      → IsBalanced p
      → let (p', released) = reconcile_orders is_active p in
        IsBalanced p'
        × (p'.reserved_cash +ℤ released ≡ p.reserved_cash)
        × ((j : String)
            → lookup String-discrete j p'.open_orders
              ≡ (if is_active j then lookup String-discrete j p.open_orders else none))
  unfolding reconcile_orders
  reconcile_orders_lem p h =
      let r = release_all_lem (orphaned p.open_orders) zero_dec p h in
      (
        r.balanced,
        r.conserved ∙ omega int_laws,
        λ j. rw (r.left, lookup-erase_all j p.open_orders p.open_orders) (ground arith),
      )
