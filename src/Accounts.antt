-- ===== src/Accounts.antt =====
-- src/trading/accounts/account_state.py. A currency in upper case stands by its code points; the float
-- of a time is a number of microseconds.
use ml_crypto_trading.Prelude.{
  ℕ, suc, ℕ_discrete, String, Bool, not, ◌||◌, ◌&&◌, Option, none, some, List, or_else, false, ite,
  ◌≡◌, refl, ap, ◌∙◌, ◌+◌, arith, [], ◌∷◌,
}
use ml_crypto_trading.Prelude.Text.{upper}
use ml_crypto_trading.Prelude.Dict.{Dict, lookup, insert, lookup-insert}
use ml_crypto_trading.Prelude.Int.{ℤ, ◌-ℤ◌, max_ℤ, leb_ℤ}
use ml_crypto_trading.Prelude.Decimal.{zero_dec}

abbrev pub Currency : Type 0
Currency = List ℕ

unfoldable pub Currency-discrete : Discrete Currency
Currency-discrete = hlevel ℕ_discrete

pub record CurrencyBalanceState : Type 0 where
  pub currency : Currency
  pub total : ℤ
  pub available : ℤ
  pub reserved : ℤ
  pub last_updated_at : ℕ
  pub version : ℕ
  pub source : String

abbrev differs : ℤ → ℤ → Bool
differs a b = not (leb_ℤ a b && leb_ℤ b a)

abbrev differs_from : ℤ → Option ℤ → Bool
differs_from a none = false
differs_from a (some b) = differs a b

-- `has_changed`
abbrev pub has_changed : ℤ → Option ℤ → CurrencyBalanceState → Bool
has_changed other_available other_total s =
    differs s.available other_available || differs_from s.total other_total

pub record AccountState : Type 0 where
  pub exchange : String
  pub account_id : String
  pub balances : Dict Currency CurrencyBalanceState
  pub last_reconciliation_time : ℕ

-- `get_balance`
abbrev pub get_balance : String → AccountState → Option CurrencyBalanceState
get_balance currency a = lookup Currency-discrete (upper currency) a.balances

-- The arguments of `update_balance`; the time is the present one where none is given.
pub record Update : Type 0 where
  pub available : ℤ
  pub total : Option ℤ
  pub reserved : Option ℤ
  pub source : String
  pub timestamp : ℕ

abbrev pub version_of : Option CurrencyBalanceState → ℕ
version_of none = 0
version_of (some old) = old.version

-- The state that `update_balance` makes, behind the one that is there.
abbrev pub new_state : String → Update → Option CurrencyBalanceState → CurrencyBalanceState
new_state currency u old =
    let total = or_else u.total u.available in
    record {
      currency = upper currency;
      total = total;
      available = u.available;
      reserved = or_else u.reserved (max_ℤ zero_dec (total -ℤ u.available));
      last_updated_at = u.timestamp;
      version = suc (version_of old);
      source = u.source;
    }

-- `update_balance`: the account, the new state and the one before it.
unfoldable pub update_balance :
    String
    → Update
    → AccountState
    → AccountState × CurrencyBalanceState × Option CurrencyBalanceState
update_balance currency u a =
    let old = get_balance currency a in
    let new = new_state currency u old in
    (record a { balances = insert Currency-discrete (upper currency) new a.balances }, new, old)

-- `currency.upper() == other.upper()`, as a decision.
abbrev pub same_currency : (currency other : String) → Dec (upper currency ≡ upper other)
same_currency currency other = Currency-discrete (upper currency) (upper other)

-- Updates of an account, in their order, and how many of them are of a currency.
abbrev pub update_all : List (String × Update) → AccountState → AccountState
update_all [] a = a
update_all ((currency, u) ∷ updates) a = update_all updates (update_balance currency u a).0

abbrev pub count_of : String → List (String × Update) → ℕ
count_of other [] = 0
count_of other ((currency, u) ∷ updates) =
    let rest = count_of other updates in ite (same_currency currency other) (suc rest) rest

get_balance-update_balance :
    (currency other : String) (u : Update) (a : AccountState)
    → get_balance other (update_balance currency u a).0
      ≡ ite
          (same_currency currency other)
          (some (new_state currency u (get_balance currency a)))
          (get_balance other a)
unfolding update_balance
get_balance-update_balance currency other u a =
    lookup-insert Currency-discrete (upper currency) (upper other) _ a.balances

counted :
    {P : Type 0} (d : Dec P) (o : Option CurrencyBalanceState) (new : CurrencyBalanceState) (n : ℕ)
    → (P → new.version ≡ suc (version_of o))
    → version_of (ite d (some new) o) + n ≡ version_of o + ite d (suc n) n
counted (yes p) o new n h = omega (arith, h p)
counted (no p) o new n h = refl

version_step :
    (currency other : String) (u : Update) (updates : List (String × Update)) (a : AccountState)
    → version_of (get_balance other (update_balance currency u a).0) + count_of other updates
      ≡ version_of (get_balance other a) + count_of other ((currency, u) ∷ updates)
version_step currency other u updates a =
    ap (λ o. version_of o + count_of other updates) (get_balance-update_balance currency other u a)
    ∙ counted (same_currency currency other) (get_balance other a)
        (new_state currency u (get_balance currency a)) (count_of other updates)
        (λ p. ap (λ k. suc (version_of (lookup Currency-discrete k a.balances))) p)

-- The version of a currency's balance counts the updates of the currency, whatever the case of its
-- letters, and no others: after any updates it is the version before, 0 if there was no balance, plus
-- the number of those that are of the currency.
pub version_of-update_all :
    (updates : List (String × Update)) (other : String) (a : AccountState)
    → version_of (get_balance other (update_all updates a))
      ≡ version_of (get_balance other a) + count_of other updates
version_of-update_all [] other a = omega arith
version_of-update_all ((currency, u) ∷ updates) other a =
    version_of-update_all updates other (update_balance currency u a).0
    ∙ version_step currency other u updates a
