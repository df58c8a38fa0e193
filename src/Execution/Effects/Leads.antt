-- ===== src/Execution/Effects/Leads.antt =====
-- Triples of actions: from a state with `P` to an end with `Q`, or to an exception with `R`.
use ml_crypto_trading.Execution.Effects.{
  Error, Outcome, Action, pure, raise, gets, modify, attempt, handle, proceed, ◌>>=◌,
}
use ml_crypto_trading.Execution.Effects.Ends.{Ends, returns, raises, Keeps}

pub record Leads {ℓ} {S A : Type ℓ} (P : S → Type ℓ) (Q : A → S → Type ℓ) (R : Error → S → Type ℓ)
    (action : Action S A) : Type ℓ where
  pub at : (s : S) → P s → Ends Q R (action s)

pub Leads-of_Keeps {ℓ} :
    {S A : Type ℓ} {P : S → Type ℓ} {Q : A → Type ℓ} {E : Error → Type ℓ} {action : Action S A}
    → Keeps P Q E action
    → Leads P (λ a s. Q a × P s) (λ error s. E error × P s) action
Leads-of_Keeps k = record { at = k.at }

module _ {ℓ} {S A : Type ℓ} {P : S → Type ℓ} {Q : A → S → Type ℓ} {R : Error → S → Type ℓ} where
  pub pure-Leads : (a : A) → ((s : S) → P s → Q a s) → Leads P Q R (pure a)
  pure-Leads a q = record { at = λ s p. returns (q s p) }

  pub gets-Leads : (f : S → A) → ((s : S) → P s → Q (f s) s) → Leads P Q R (gets f)
  gets-Leads f q = record { at = λ s p. returns (q s p) }

  pub raise-Leads : (error : Error) → ((s : S) → P s → R error s) → Leads P Q R (raise error)
  raise-Leads error r = record { at = λ s p. raises (r s p) }

pub modify-Leads {ℓ} :
    {S : Type ℓ} {P : S → Type ℓ} {Q : Unit → S → Type ℓ} {R : Error → S → Type ℓ} (f : S → S)
    → ((s : S) → P s → Q tt (f s))
    → Leads P Q R (modify f)
modify-Leads f q = record { at = λ s p. returns (q s p) }

module _ {ℓ} {S A : Type ℓ} {Q Q' : A → S → Type ℓ} {R R' : Error → S → Type ℓ} where
  pub weaken-Ends :
      {o : Outcome S A}
      → ((a : A) (s : S) → Q a s → Q' a s)
      → ((error : Error) (s : S) → R error s → R' error s)
      → Ends Q R o
      → Ends Q' R' o
  weaken-Ends f g (returns h) = returns (f _ _ h)
  weaken-Ends f g (raises h) = raises (g _ _ h)

  pub weaken-Leads :
      {P : S → Type ℓ} {action : Action S A}
      → ((a : A) (s : S) → Q a s → Q' a s)
      → ((error : Error) (s : S) → R error s → R' error s)
      → Leads P Q R action
      → Leads P Q' R' action
  weaken-Leads f g k = record { at = λ s p. weaken-Ends f g (k.at s p) }

module _ {ℓ} {S A B : Type ℓ} {Q : A → S → Type ℓ} {Q' : B → S → Type ℓ} {R : Error → S → Type ℓ}
    (next : A → Action S B) where
  proceed-Ends :
      {o : Outcome S A}
      → Ends Q R o
      → ((a : A) → Leads (Q a) Q' R (next a))
      → Ends Q' R (proceed next o)
  proceed-Ends (returns h) k = (k _).at _ h
  proceed-Ends (raises h) k = raises h

  pub bind-Leads :
      {P : S → Type ℓ} {action : Action S A}
      → Leads P Q R action
      → ((a : A) → Leads (Q a) Q' R (next a))
      → Leads P Q' R (action >>= next)
  unfolding ◌>>=◌
  bind-Leads k l = record { at = λ s p. proceed-Ends (k.at s p) l }

module _ {ℓ} {S A : Type ℓ} {Q : A → S → Type ℓ} {R R' : Error → S → Type ℓ}
    (handler : Error → Action S A) where
  handle-Ends :
      {o : Outcome S A}
      → Ends Q R o
      → ((error : Error) → Leads (R error) Q R' (handler error))
      → Ends Q R' (handle handler o)
  handle-Ends (returns h) k = returns h
  handle-Ends (raises h) k = (k _).at _ h

  pub attempt-Leads :
      {P : S → Type ℓ} {action : Action S A}
      → Leads P Q R action
      → ((error : Error) → Leads (R error) Q R' (handler error))
      → Leads P Q R' (attempt action handler)
  unfolding attempt
  attempt-Leads k l = record { at = λ s p. handle-Ends (k.at s p) l }

module _ {ℓ} {S A : Type ℓ} {P : S → Type ℓ} {Q : A → S → Type ℓ} {R : Error → S → Type ℓ}
    {action : Action S A} where
  pub before-Leads :
      {P' : S → Type ℓ} → ((s : S) → P' s → P s) → Leads P Q R action → Leads P' Q R action
  before-Leads f k = record { at = λ s p. k.at s (f s p) }

  -- A fact that does not depend on the state.
  pub fact-Leads : {F : Type ℓ} → (F → Leads P Q R action) → Leads (λ s. F × P s) Q R action
  fact-Leads k = record { at = λ s p. (k p.0).at s p.1 }
