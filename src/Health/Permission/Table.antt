-- ===== src/Health/Permission/Table.antt =====
-- src/trading/health/permission_policy.py against a table of states, conditions and actions.
use ml_crypto_trading.Prelude.{
  ◌≡◌, ◌≢◌, refl, ap, ◌∙◌, inl, inr, Bool-cases, Bool, true, false, not, ◌&&◌, Option, String, List,
  [], ◌∷◌, any, select, arith,
}
use ml_crypto_trading.Health.Models.{
  TradingHealthState, starting, syncing, ready, trading, degraded, paused, recovering, stopping,
  stopped, TradingHealthCondition, exchange_unavailable, market_data_stale, TradingPermission,
  new_orders, modify_orders, cancel_orders, reduce_positions, close_positions, HealthScope,
  ActiveCondition,
}
use ml_crypto_trading.Health.Permission.{
  PermissionSet, member, all_permissions, restrict, restrict_all, live_permissions, applies,
  is_exchange_down, evaluate,
}

-- What a state grants in the absence of conditions.
abbrev pub grants : TradingHealthState → TradingPermission → Bool
grants trading p = true
grants degraded p = true
grants paused cancel_orders = true
grants paused reduce_positions = true
grants recovering cancel_orders = true
grants recovering reduce_positions = true
grants stopping cancel_orders = true
grants stopping reduce_positions = true
grants stopping close_positions = true
grants _ _ = false

-- What a condition blocks while the engine trades.
abbrev pub blocks_live : TradingHealthCondition → TradingPermission → Bool
blocks_live exchange_unavailable p = true
blocks_live c new_orders = true
blocks_live c modify_orders = true
blocks_live market_data_stale close_positions = true
blocks_live _ _ = false

-- What it blocks in a state: outside of trading only the exchange counts.
abbrev pub blocks : TradingHealthState → TradingHealthCondition → TradingPermission → Bool
blocks trading c p = blocks_live c p
blocks degraded c p = blocks_live c p
blocks s exchange_unavailable p = true
blocks s c p = false

restrict_lem :
    (c : TradingHealthCondition) (p : TradingPermission) (s : PermissionSet)
    → (c ≡ exchange_unavailable → ⊥)
    → member p (restrict c s) ≡ (member p s && not (blocks_live c p))
restrict_lem c new_orders s h = ground arith
restrict_lem c modify_orders s h = ground arith
restrict_lem c cancel_orders s h = ground arith
restrict_lem c reduce_positions s h = ground arith
restrict_lem c close_positions s h = ground arith

exchange_blocks :
    (st : TradingHealthState) (c : TradingHealthCondition) (p : TradingPermission)
    → c ≡ exchange_unavailable
    → blocks st c p ≡ true
exchange_blocks st c p h = ground arith

member_all : (p : TradingPermission) → member p all_permissions ≡ true
member_all p = ground arith

live_down :
    (p : TradingPermission) (m : List ActiveCondition)
    → m ≢ []
    → member p (live_permissions true m) ≡ false
live_down p [] h = absurd (h refl)
live_down p (c ∷ m) h = ground arith

live_up :
    (p : TradingPermission) (m : List ActiveCondition)
    → member p (live_permissions false m) ≡ member p (restrict_all all_permissions m)
unfolding restrict_all
live_up p [] = refl
live_up p (c ∷ m) = refl

module _ (target : Option HealthScope) (exchange_name portfolio_key : Option String) where
  abbrev pub blocked : TradingHealthState → TradingPermission → ActiveCondition → Bool
  blocked s p c = applies target exchange_name portfolio_key c && blocks s c.condition p

  -- With the exchange up, the loop removes exactly what the matching conditions block.
  restrict_all_lem :
      (p : TradingPermission) (s : PermissionSet) (cs : List ActiveCondition)
      → any (is_exchange_down target exchange_name portfolio_key) cs ≡ false
      → member p (restrict_all s (select (applies target exchange_name portfolio_key) cs))
        ≡ (member p s && not (any (blocked trading p) cs))
  unfolding restrict_all
  restrict_all_lem p s [] h = ground arith
  restrict_all_lem p s (c ∷ cs) h = ground (
    arith,
    restrict_all_lem p (restrict c.condition s) cs,
    restrict_all_lem p s cs,
    restrict_lem c.condition p s,
  )

  down_blocks :
      (st : TradingHealthState) (p : TradingPermission) (cs : List ActiveCondition)
      → any (is_exchange_down target exchange_name portfolio_key) cs ≡ true
      → any (blocked st p) cs ≡ true
  down_blocks st p [] h = cc
  down_blocks st p (c ∷ cs) h =
      ground (arith, down_blocks st p cs, exchange_blocks st c.condition p)

  -- Away from trading a condition blocks only as the exchange being down.
  up_blocks_none :
      (st : TradingHealthState) (p : TradingPermission) (cs : List ActiveCondition)
      → (st ≡ trading → ⊥)
      → (st ≡ degraded → ⊥)
      → any (is_exchange_down target exchange_name portfolio_key) cs ≡ false
      → any (blocked st p) cs ≡ false
  up_blocks_none st p [] a b h = refl
  up_blocks_none st p (c ∷ cs) a b h = ground (arith, up_blocks_none st p cs a b)

  abbrev matching : List ActiveCondition → List ActiveCondition
  matching cs = select (applies target exchange_name portfolio_key) cs

  down_matches :
      (cs : List ActiveCondition)
      → any (is_exchange_down target exchange_name portfolio_key) cs ≡ true
      → matching cs ≢ []
  down_matches [] h = cc
  down_matches (c ∷ cs) h = ground (arith, down_matches cs)

  live_lem :
      (p : TradingPermission) (cs : List ActiveCondition)
      → member p (
          live_permissions
            (any (is_exchange_down target exchange_name portfolio_key) cs)
            (matching cs))
        ≡ not (any (blocked trading p) cs)
  live_lem p cs = elim (Bool-cases (any (is_exchange_down target exchange_name portfolio_key) cs)) [
    | inl down ↦
        rw (down, down_blocks trading p cs down) (live_down p (matching cs) (down_matches cs down))
    | inr up ↦ rw up (
        live_up p (matching cs)
        ∙ restrict_all_lem p all_permissions cs up
        ∙ ap (λ b. b && not (any (blocked trading p) cs)) (member_all p))
  ]

  -- An action is permitted exactly if the state grants it and no active condition that applies to
  -- the scope blocks it in that state.
  pub evaluate-table :
      (st : TradingHealthState) (p : TradingPermission) (cs : List ActiveCondition)
      → member p (evaluate target exchange_name portfolio_key st cs)
        ≡ (grants st p && not (any (blocked st p) cs))
  unfolding evaluate
  evaluate-table trading p cs = live_lem p cs
  evaluate-table degraded p cs = live_lem p cs
  evaluate-table paused p cs = ground (arith, down_blocks paused p cs, up_blocks_none paused p cs)
  evaluate-table recovering p cs =
      ground (arith, down_blocks recovering p cs, up_blocks_none recovering p cs)
  evaluate-table stopping p cs =
      ground (arith, down_blocks stopping p cs, up_blocks_none stopping p cs)
  evaluate-table starting p cs = ground arith
  evaluate-table syncing p cs = ground arith
  evaluate-table ready p cs = ground arith
  evaluate-table stopped p cs = ground arith
