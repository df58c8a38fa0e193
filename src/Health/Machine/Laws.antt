-- ===== src/Health/Machine/Laws.antt =====
-- src/trading/health/state_machine.py: the snapshot against the machine.
use ml_crypto_trading.Prelude.{
  ℕ, ◌+◌, ◌≡◌, refl, sym, not, ◌||◌, inl, inr, Bool-cases, Bool, false, Option, none, some, List,
  holds, if◌then◌else◌,
}
use ml_crypto_trading.Health.Models.{
  TradingHealthState, State-discrete, ActiveCondition, Conditions-discrete, global_scope,
}
use ml_crypto_trading.Health.Transition
use ml_crypto_trading.Health.Permission
use ml_crypto_trading.Health.Machine.{StateMachine, init, has_changed, update}

-- The snapshot agrees with the machine.
pub record IsConsistent (m : StateMachine) : Type 0 where
  pub same_state : m.snapshot.state ≡ m.state
  pub same_version : m.snapshot.version ≡ m.version
  pub permitted :
      m.snapshot.effective_permissions
      ≡ Permission.evaluate (some global_scope) none none m.state m.snapshot.active_conditions

pub init-IsConsistent : (s : TradingHealthState) (now : ℕ) → IsConsistent (init s now)
init-IsConsistent s now = record { same_state = refl; same_version = refl; permitted = refl }

-- What an update leaves behind.
pub record Updated (m : StateMachine) (cs : List ActiveCondition) (r : Option TradingHealthState)
    (m' : StateMachine) (changed : Bool) : Type 0 where
  pub state : m'.state ≡ Transition.evaluate m.state cs r
  pub conditions : m'.snapshot.active_conditions ≡ cs
  pub consistent : IsConsistent m'
  pub version : m'.version ≡ (if changed then m.version + 1 else m.version)
  pub same : changed ≡ false → m' ≡ m

both_hold :
    {P Q : Type 0} (d : Dec P) (e : Dec Q) → (not (holds d) || not (holds e)) ≡ false → P × Q
both_hold (yes p) (yes q) h = (p, q)
both_hold (yes p) (no q) h = cc
both_hold (no p) e h = cc

pub update_lem :
    (m : StateMachine) (cs : List ActiveCondition) (r : Option TradingHealthState) (now : ℕ)
    → IsConsistent m
    → Updated m cs r (update cs r now m).0 (update cs r now m).1
unfolding update
update_lem m cs r now h = elim (Bool-cases (has_changed m (Transition.evaluate m.state cs r) cs)) [
  | inl e ↦ rw e (record {
    state = refl;
    conditions = refl;
    consistent = record { same_state = refl; same_version = refl; permitted = refl };
    version = refl;
    same = λ p. cc;
  })
  | inr e ↦ rw e (record {
    state = sym (both_hold (State-discrete _ _) (Conditions-discrete _ _) e).0;
    conditions = sym (both_hold (State-discrete _ _) (Conditions-discrete _ _) e).1;
    consistent = h;
    version = refl;
    same = λ p. refl;
  })
]
