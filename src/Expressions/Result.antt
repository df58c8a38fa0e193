-- ===== src/Expressions/Result.antt =====
-- The errors of src/core/expressions/expression_parser.py. The parser's own are told apart by kind;
-- `raised` is an exception of Python's operators or of the context.
use ml_crypto_trading.Prelude.{String, Bool, true, false, ◌⊎◌, inl, inr, ◌&&◌, ◌≡◌, refl}

pub data Error : Type 0 where
  unsupported not_simple_call keyword_arguments : Error
  rolling_arity rolling_series rolling_period : Error
  too_long bad_syntax : Error
  raised : String → Error

-- What a step of the parser gives, or how it fails.
pub data Result {ℓ} (T : Type ℓ) : Type ℓ where
  fails : Error → Result T
  gives : T → Result T

infixl 5 ◌>>=◌ ◌>>◌
-- The next step, which an error skips.
abbrev pub ◌>>=◌ {ℓ κ} : {T : Type ℓ} {U : Type κ} → Result T → (T → Result U) → Result U
fails e >>= next = fails e
gives v >>= next = next v

-- The next step after a check.
abbrev pub ◌>>◌ {ℓ} : {U : Type ℓ} → Result (Unit {0}) → Result U → Result U
test >> next = test >>= λ _. next

-- `if not b: raise e`
abbrev pub require : Bool → Error → Result (Unit {0})
require true e = gives tt
require false e = fails e

-- What Python's operators and the context give: an exception with its message, or a value.
abbrev pub lift {ℓ} : {A : Type ℓ} → String ⊎ A → Result A
lift (inl m) = fails (raised m)
lift (inr a) = gives a

abbrev pub is_ok {ℓ} : {A : Type ℓ} → Result A → Bool
is_ok (gives a) = true
is_ok (fails e) = false

-- An exception that the parser itself raises.
abbrev pub is_own : Error → Bool
is_own (raised m) = false
is_own _ = true

abbrev pub rejects {ℓ} : {A : Type ℓ} → Result A → Bool
rejects (gives a) = false
rejects (fails e) = is_own e

pub is_ok->> {ℓ} :
    {B : Type ℓ} (m : Result (Unit {0})) (k : Result B) → is_ok (m >> k) ≡ (is_ok m && is_ok k)
is_ok->> (gives a) k = refl
is_ok->> (fails e) k = refl

pub is_ok-require : (b : Bool) (e : Error) → is_ok (require b e) ≡ b
is_ok-require true e = refl
is_ok-require false e = refl

-- The parts of a successful chain, and a chain of which no part rejects.
pub is_ok-parts {ℓ} :
    {B : Type ℓ} (m : Result (Unit {0})) (k : Result B)
    → is_ok (m >> k) ≡ true
    → (is_ok m ≡ true) × (is_ok k ≡ true)
is_ok-parts (gives a) k h = (refl, h)
is_ok-parts (fails e) k h = cc

pub rejects->>= {ℓ κ} :
    {A : Type ℓ} {B : Type κ} (m : Result A) (f : A → Result B)
    → rejects m ≡ false
    → ((a : A) → rejects (f a) ≡ false)
    → rejects (m >>= f) ≡ false
rejects->>= (gives a) f h k = k a
rejects->>= (fails e) f h k = h

pub rejects-lift {ℓ} : {A : Type ℓ} (r : String ⊎ A) → rejects (lift r) ≡ false
rejects-lift (inl m) = refl
rejects-lift (inr a) = refl
