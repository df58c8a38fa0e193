-- ===== src/Execution/Effects/Ends.antt =====
-- Total correctness of actions: they come back, by returning or by raising, and keep what held before.
use ml_crypto_trading.Prelude.{List, [], ◌∷◌, All}
use ml_crypto_trading.Execution.Effects.{
  Error, Outcome, Action, returned, raised, pure, raise, gets, modify, attempt, handle, proceed,
  ◌>>=◌, each,
}

-- The action came back: with `Q` if it returned, with `R` if it raised.
pub data Ends {ℓ} {S A : Type ℓ} (Q : A → S → Type ℓ) (R : Error → S → Type ℓ)
    : Outcome S A → Type ℓ where
  returns : {a : A} {s : S} → Q a s → Ends Q R (returned a s)
  raises : {error : Error} {s : S} → R error s → Ends Q R (raised error s)

module _ {ℓ} {S A : Type ℓ} {Q : A → S → Type ℓ} {R : Error → S → Type ℓ} where
  pub returned_inv : (a : A) (s : S) → Ends Q R (returned a s) → Q a s
  returned_inv a s (returns h) = h

  pub raised_inv : (error : Error) (s : S) → Ends Q R (raised error s) → R error s
  raised_inv error s (raises h) = h

-- From a state with `P` the action comes back to one, with a value in `Q` or an error in `R`.
pub record Keeps {ℓ} {S A : Type ℓ} (P : S → Type ℓ) (Q : A → Type ℓ) (R : Error → Type ℓ)
    (action : Action S A) : Type ℓ where
  pub at : (s : S) → P s → Ends (λ a s'. Q a × P s') (λ error s'. R error × P s') (action s)

module _ {ℓ} {S A : Type ℓ} {P : S → Type ℓ} {Q : A → Type ℓ} {R R' : Error → Type ℓ} where
  relax-Ends :
      {o : Outcome S A}
      → ((error : Error) → R error → R' error)
      → Ends (λ a s'. Q a × P s') (λ error s'. R error × P s') o
      → Ends (λ a s'. Q a × P s') (λ error s'. R' error × P s') o
  relax-Ends f (returns h) = returns h
  relax-Ends f (raises h) = raises (f _ h.0, h.1)

  pub relax-Keeps :
      {action : Action S A}
      → ((error : Error) → R error → R' error)
      → Keeps P Q R action
      → Keeps P Q R' action
  relax-Keeps f k = record { at = λ s p. relax-Ends f (k.at s p) }

module _ {ℓ} {S : Type ℓ} {P : S → Type ℓ} {R : Error → Type ℓ} where
  module _ {A : Type ℓ} {Q : A → Type ℓ} where
    pub pure-Keeps : (a : A) → Q a → Keeps P Q R (pure a)
    pure-Keeps a q = record { at = λ s p. returns (q, p) }

    pub raise-Keeps : (error : Error) → R error → Keeps P Q R (raise {A = A} error)
    raise-Keeps error r = record { at = λ s p. raises (r, p) }

    pub gets-Keeps : (f : S → A) → ((s : S) → P s → Q (f s)) → Keeps P Q R (gets f)
    gets-Keeps f q = record { at = λ s p. returns (q s p, p) }

  pub modify-Keeps : (f : S → S) → ((s : S) → P s → P (f s)) → Keeps P (λ u. Unit) R (modify f)
  modify-Keeps f keep = record { at = λ s p. returns (tt, keep s p) }

  module _ {A B : Type ℓ} {Q : A → Type ℓ} {Q' : B → Type ℓ} (next : A → Action S B) where
    proceed-Ends :
        {o : Outcome S A}
        → Ends (λ a s'. Q a × P s') (λ error s'. R error × P s') o
        → ((a : A) → Q a → Keeps P Q' R (next a))
        → Ends (λ b s'. Q' b × P s') (λ error s'. R error × P s') (proceed next o)
    proceed-Ends (returns h) keep = (keep _ h.0).at _ h.1
    proceed-Ends (raises h) keep = raises h

    pub bind-Keeps :
        {action : Action S A}
        → Keeps P Q R action
        → ((a : A) → Q a → Keeps P Q' R (next a))
        → Keeps P Q' R (action >>= next)
    unfolding ◌>>=◌
    bind-Keeps k keep = record { at = λ s p. proceed-Ends (k.at s p) keep }

  module _ {A : Type ℓ} {Q : A → Type ℓ} {R' : Error → Type ℓ} (handler : Error → Action S A) where
    handle-Ends :
        {o : Outcome S A}
        → Ends (λ a s'. Q a × P s') (λ error s'. R error × P s') o
        → ((error : Error) → R error → Keeps P Q R' (handler error))
        → Ends (λ a s'. Q a × P s') (λ error s'. R' error × P s') (handle handler o)
    handle-Ends (returns h) keep = returns h
    handle-Ends (raises h) keep = (keep _ h.0).at _ h.1

    pub attempt-Keeps :
        {action : Action S A}
        → Keeps P Q R action
        → ((error : Error) → R error → Keeps P Q R' (handler error))
        → Keeps P Q R' (attempt action handler)
    unfolding attempt
    attempt-Keeps k keep = record { at = λ s p. handle-Ends (k.at s p) keep }

  module _ {A : Type ℓ} (body : A → Action S Unit) where
    pub each-Keeps :
        (G : A → Type ℓ) (xs : List A)
        → ((x : A) → G x → Keeps P (λ u. Unit) R (body x))
        → All G xs
        → Keeps P (λ u. Unit) R (each body xs)
    unfolding each
    each-Keeps G [] keep h = pure-Keeps tt tt
    each-Keeps G (x ∷ xs) keep h = bind-Keeps _ (keep x h.0) (λ u q. each-Keeps G xs keep h.1)

    pub each_any-Keeps :
        ((x : A) → Keeps P (λ u. Unit) R (body x))
        → (xs : List A) → Keeps P (λ u. Unit) R (each body xs)
    unfolding each
    each_any-Keeps keep [] = pure-Keeps tt tt
    each_any-Keeps keep (x ∷ xs) = bind-Keeps _ (keep x) (λ u q. each_any-Keeps keep xs)
