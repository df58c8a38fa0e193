-- ===== src/Execution/Effects.antt =====
-- Methods of src/trading/orders/order_manager.py as actions on a state: a call returns a value, raises
-- or does not come back, and what was written before a raise stays written.
pub mod Ends
pub mod Leads
use ml_crypto_trading.Prelude.{List, [], ◌∷◌}
use ml_crypto_trading.Orders.{Order}

-- What a call may raise. The `RuntimeError` of `execute_order` carries its order.
pub data Error : Type 0 where
  runtime_error runtime_warning other_error : Error
  order_error : Order → Error

-- The answer of a service.
pub data Answer {ℓ} (A : Type ℓ) : Type ℓ where
  gives : A → Answer A
  raises : Error → Answer A

pub data Outcome {ℓ} (S A : Type ℓ) : Type ℓ where
  returned : A → S → Outcome S A
  raised : Error → S → Outcome S A
  hanging : Outcome S A

abbrev pub Action {ℓ} : Type ℓ → Type ℓ → Type ℓ
Action S A = S → Outcome S A

module _ {ℓ} {S A : Type ℓ} where
  abbrev pub pure : A → Action S A
  pure a s = returned a s

  -- `raise error`
  abbrev pub raise : Error → Action S A
  raise error s = raised error s

  -- What is read off the state.
  abbrev pub gets : (S → A) → Action S A
  gets f s = returned (f s) s

  abbrev pub handle : (Error → Action S A) → Outcome S A → Outcome S A
  handle handler (returned a s) = returned a s
  handle handler (raised error s) = handler error s
  handle handler hanging = hanging

  -- `try: ... except Exception as error: ...`
  unfoldable pub attempt : Action S A → (Error → Action S A) → Action S A
  attempt action handler s = handle handler (action s)

module _ {ℓ} {S A B : Type ℓ} where
  abbrev pub proceed : (A → Action S B) → Outcome S A → Outcome S B
  proceed next (returned a s) = next a s
  proceed next (raised error s) = raised error s
  proceed next hanging = hanging

  infixl 10 ◌>>=◌ ◌>>◌
  unfoldable pub ◌>>=◌ : Action S A → (A → Action S B) → Action S B
  ◌>>=◌ action next s = proceed next (action s)

  abbrev pub ◌>>◌ : Action S A → Action S B → Action S B
  action >> next = action >>= λ _. next

-- A change of the state.
abbrev pub modify {ℓ} : {S : Type ℓ} → (S → S) → Action S Unit
modify f s = returned tt (f s)

module _ {ℓ} {S A : Type ℓ} where
  -- `for x in xs: ...`
  unfoldable pub each : (A → Action S Unit) → List A → Action S Unit
  each body [] = pure tt
  each body (x ∷ xs) = body x >> each body xs
