-- ===== src/Portfolio/Book/Reservations.antt =====
-- src/trading/protection/quote_portfolio.py: the sum of the amounts that the open orders hold.
use ml_crypto_trading.Prelude.{◌≡◌, String, none, some, [], ◌∷◌, arith}
use ml_crypto_trading.Prelude.Int.{ℤ, pos, ◌+ℤ◌, ◌≤ℤ◌, int_laws}
use ml_crypto_trading.Prelude.Dict.{Dict, lookup, insert, erase, IsValid, erase_missing}
use ml_crypto_trading.Prelude.Text.{String-discrete}

abbrev pub total_reserved : Dict String ℤ → ℤ
total_reserved [] = pos 0
total_reserved ((k, a) ∷ d) = a +ℤ total_reserved d

-- Every order is listed once, with a positive amount.
abbrev pub IsReserved : Dict String ℤ → Type 0
IsReserved = IsValid String-discrete (λ k a. pos 1 ≤ℤ a)

pub total_reserved_nonneg : (d : Dict String ℤ) → IsReserved d → pos 0 ≤ℤ total_reserved d
total_reserved_nonneg [] h = omega arith
total_reserved_nonneg ((k, a) ∷ d) h = omega (int_laws, total_reserved_nonneg d h.2, h.0)

pub total_reserved-insert_new :
    (k : String) (v : ℤ) (d : Dict String ℤ)
    → lookup String-discrete k d ≡ none
    → total_reserved (insert String-discrete k v d) ≡ total_reserved d +ℤ v
total_reserved-insert_new k v [] h = omega int_laws
total_reserved-insert_new k v ((j, w) ∷ d) h = grind (int_laws, total_reserved-insert_new k v d)

pub total_reserved-erase :
    (k : String) (v : ℤ) (d : Dict String ℤ)
    → IsReserved d
    → lookup String-discrete k d ≡ some v
    → total_reserved (erase String-discrete k d) +ℤ v ≡ total_reserved d
total_reserved-erase k v [] h e = cc
total_reserved-erase k v ((j, w) ∷ d) h e =
    grind (int_laws, total_reserved-erase k v d, erase_missing)
