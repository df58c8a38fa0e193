-- ===== src/Protection.antt =====
-- src/trading/protection/protection_manager.py. A guard is what it answers for an action; the trading
-- context and the market data that it also sees are fixed during a question.
use ml_crypto_trading.Prelude.{
  ℕ, ℕ_discrete, Bool, true, false, not, ◌&&◌, ◌||◌, Option, none, some, List, [], ◌∷◌, ◌++◌, any,
  select, or_else, ◌==◌, All, if_cases, if_then, if◌then◌else◌, arith, ◌≡◌, ◌≢◌, refl, ◌∙◌, ap,
}
use ml_crypto_trading.Prelude.Dict.{Dict, lookup, insert}
use ml_crypto_trading.Orders.{TradeAction}

abbrev pub Guard : Type 0
Guard = TradeAction → Bool

pub record ProtectionManager : Type 0 where
  pub guards : Dict ℕ (List Guard)
  pub is_paused : Bool
  pub paused_assets : List ℕ

-- `pause_trading`, `resume_trading`, `pause_asset`, `resume_asset` and `register_guard`
abbrev pub pause_trading : ProtectionManager → ProtectionManager
pause_trading m = record m { is_paused = true }

abbrev pub resume_trading : ProtectionManager → ProtectionManager
resume_trading m = record m { is_paused = false }

-- `asset_key in self._paused_assets`
abbrev pub is_in : ℕ → List ℕ → Bool
is_in asset_key assets = any (λ k. k == asset_key) assets

unfoldable pub pause_asset : ℕ → ProtectionManager → ProtectionManager
pause_asset asset_key m =
    if is_in asset_key m.paused_assets
    then m
    else record m { paused_assets = asset_key ∷ m.paused_assets }

unfoldable pub resume_asset : ℕ → ProtectionManager → ProtectionManager
resume_asset asset_key m = record m {
  paused_assets = select (λ k. not (k == asset_key)) m.paused_assets;
}

abbrev pub is_asset_paused : ℕ → ProtectionManager → Bool
is_asset_paused asset_key m = m.is_paused || is_in asset_key m.paused_assets

unfoldable pub register_guard : ℕ → Guard → ProtectionManager → ProtectionManager
register_guard asset_key guard m = record m {
  guards =
      insert ℕ_discrete asset_key (or_else (lookup ℕ_discrete asset_key m.guards) [] ++ guard ∷ [])
        m.guards;
}

-- `all(guard.can_trade(...) for guard in guards)`
abbrev pub all_allow : TradeAction → List Guard → Bool
all_allow trade_action [] = true
all_allow trade_action (g ∷ guards) = g trade_action && all_allow trade_action guards

abbrev guards_allow : TradeAction → Option (List Guard) → Bool
guards_allow trade_action none = true
guards_allow trade_action (some guards) = all_allow trade_action guards

-- `can_trade`
unfoldable pub can_trade : ℕ → TradeAction → ProtectionManager → Bool
can_trade asset_key trade_action m =
    if is_asset_paused asset_key m
    then false
    else guards_allow trade_action (lookup ℕ_discrete asset_key m.guards)

pub data Change : Type 0 where
  pausing resuming : Change
  pausing_asset resuming_asset : ℕ → Change
  guarding : ℕ → Guard → Change

abbrev pub change : Change → ProtectionManager → ProtectionManager
change pausing m = pause_trading m
change resuming m = resume_trading m
change (pausing_asset k) m = pause_asset k m
change (resuming_asset k) m = resume_asset k m
change (guarding k g) m = register_guard k g m

-- The changes of a manager, in their order.
unfoldable pub run : List Change → ProtectionManager → ProtectionManager
run [] m = m
run (c ∷ changes) m = run changes (change c m)

-- A change other than resuming the asset.
abbrev pub LeavesPaused : ℕ → Change → Type 0
LeavesPaused asset_key (resuming_asset k) = k ≢ asset_key
LeavesPaused asset_key c = Unit

or_true : (b : Bool) → (b || true) ≡ true
or_true true = refl
or_true false = refl

is_in-select :
    (k j : ℕ) (assets : List ℕ)
    → k ≢ j
    → is_in j assets ≡ true
    → is_in j (select (λ i. not (i == k)) assets) ≡ true
is_in-select k j [] h e = e
is_in-select k j (i ∷ assets) h e = ground (arith, is_in-select k j assets h)

change-is_in :
    (asset_key : ℕ) (c : Change) (m : ProtectionManager)
    → LeavesPaused asset_key c
    → is_in asset_key m.paused_assets ≡ true
    → is_in asset_key (change c m).paused_assets ≡ true
unfolding pause_asset resume_asset register_guard
change-is_in asset_key pausing m l h = h
change-is_in asset_key resuming m l h = h
change-is_in asset_key (pausing_asset k) m l h =
    if_cases (λ (n : ProtectionManager). is_in asset_key n.paused_assets ≡ true)
      (is_in k m.paused_assets) (λ e. h) (λ e. rw h (or_true (k == asset_key)))
change-is_in asset_key (resuming_asset k) m l h = is_in-select k asset_key m.paused_assets l h
change-is_in asset_key (guarding k g) m l h = h

run-is_in :
    (asset_key : ℕ) (changes : List Change) (m : ProtectionManager)
    → All (LeavesPaused asset_key) changes
    → is_in asset_key m.paused_assets ≡ true
    → is_in asset_key (run changes m).paused_assets ≡ true
unfolding run
run-is_in asset_key [] m l h = h
run-is_in asset_key (c ∷ changes) m l h =
    run-is_in asset_key changes (change c m) l.1 (change-is_in asset_key c m l.0 h)

pause_asset-is_in :
    (asset_key : ℕ) (m : ProtectionManager)
    → is_in asset_key (pause_asset asset_key m).paused_assets ≡ true
unfolding pause_asset
pause_asset-is_in asset_key m =
    if_cases (λ (n : ProtectionManager). is_in asset_key n.paused_assets ≡ true)
      (is_in asset_key m.paused_assets) (λ e. e) (λ e. ground arith)

-- After an asset is paused, no trade of it is allowed until that asset is resumed: not after any
-- sequence of other changes, pausing and resuming all trading, other assets and new guards included.
pub can_trade-run :
    (asset_key : ℕ) (trade_action : TradeAction) (changes : List Change) (m : ProtectionManager)
    → All (LeavesPaused asset_key) changes
    → can_trade asset_key trade_action (run changes (pause_asset asset_key m)) ≡ false
unfolding can_trade
can_trade-run asset_key trade_action changes m l =
    let after = run changes (pause_asset asset_key m) in
    let paused =
      run-is_in asset_key changes (pause_asset asset_key m) l (pause_asset-is_in asset_key m) in
    if_then (is_asset_paused asset_key after) _ _
      (ap (λ b. after.is_paused || b) paused ∙ or_true after.is_paused)
