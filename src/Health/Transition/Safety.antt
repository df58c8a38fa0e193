-- ===== src/Health/Transition/Safety.antt =====
-- src/trading/health/transition_policy.py: the next state against the conditions.
use ml_crypto_trading.Prelude.{
  ◌≡◌, refl, ◌⊎◌, inl, inr, false, Option, none, some, List, [], ◌∷◌, any, arith,
}
use ml_crypto_trading.Health.Models.{
  TradingHealthState, starting, syncing, ready, trading, degraded, paused, recovering, stopping,
  stopped, ActiveCondition,
}
use ml_crypto_trading.Health.Transition.{is_critical, is_critical_global, is_nonempty, evaluate}

-- The states in which orders may be placed agree with the active conditions: the engine trades
-- without any condition, and is merely degraded without a critical global one.
abbrev pub IsSafe : TradingHealthState → List ActiveCondition → Type 0
IsSafe trading cs = cs ≡ []
IsSafe degraded cs = any is_critical_global cs ≡ false
IsSafe _ cs = Unit {0}

empty_of : (cs : List ActiveCondition) → is_nonempty cs ≡ false → cs ≡ []
empty_of [] h = refl
empty_of (c ∷ cs) h = cc

pub critical_of_global :
    (cs : List ActiveCondition) → any is_critical cs ≡ false → any is_critical_global cs ≡ false
critical_of_global [] h = refl
critical_of_global (c ∷ cs) h = ground (arith, critical_of_global cs)

-- With no request, the state that follows is safe, whatever the current one is.
auto-IsSafe : (s : TradingHealthState) (cs : List ActiveCondition) → IsSafe (evaluate s cs none) cs
unfolding evaluate
auto-IsSafe trading cs = ground (arith, empty_of cs)
auto-IsSafe degraded cs = ground (arith, empty_of cs)
auto-IsSafe paused cs = ground (arith, empty_of cs)
auto-IsSafe recovering cs = ground (arith, empty_of cs, critical_of_global cs)
auto-IsSafe ready cs = ground (arith, empty_of cs)
auto-IsSafe syncing cs = ground (arith, empty_of cs)
auto-IsSafe starting cs = tt
auto-IsSafe stopping cs = tt
auto-IsSafe stopped cs = tt

-- A request is granted into a safe state only.
manual-IsSafe :
    (s r : TradingHealthState) (cs : List ActiveCondition)
    → IsSafe s cs
    → IsSafe (evaluate s cs (some r)) cs
unfolding evaluate
manual-IsSafe s paused cs h = tt
manual-IsSafe s stopping cs h = tt
manual-IsSafe s stopped cs h = tt
manual-IsSafe starting syncing cs h = tt
manual-IsSafe _ syncing cs h = h
manual-IsSafe starting ready cs h = tt
manual-IsSafe syncing ready cs h = tt
manual-IsSafe _ ready cs h = h
manual-IsSafe s trading cs h = ground (arith, empty_of cs, critical_of_global cs)
manual-IsSafe s recovering cs h = tt
manual-IsSafe starting starting cs h = h
manual-IsSafe _ _ cs h = h

-- Without a request the next state is safe for the conditions at hand, from any state; with one it
-- is safe if the current state was.
pub evaluate-IsSafe :
    (s : TradingHealthState) (cs : List ActiveCondition) (r : Option TradingHealthState)
    → (r ≡ none) ⊎ IsSafe s cs
    → IsSafe (evaluate s cs r) cs
evaluate-IsSafe s cs none h = auto-IsSafe s cs
evaluate-IsSafe s cs (some r) (inl h) = cc
evaluate-IsSafe s cs (some r) (inr h) = manual-IsSafe s r cs h

-- The automatic state no longer changes after two evaluations under the same conditions.
evaluate_settles :
    (s : TradingHealthState) (cs : List ActiveCondition)
    → let t = evaluate (evaluate s cs none) cs none in evaluate t cs none ≡ t
unfolding evaluate
evaluate_settles trading cs = ground arith
evaluate_settles _ cs = ground arith
