-- ===== src/Session/Manager/Fills/Named.antt =====
-- src/trading/session/session_manager.py: the order that `record_order_fill` hands back.
use mathlib.Core.Option.{some-injective}
use ml_crypto_trading.Prelude.{ℕ, String, Option, none, some, List, ◌≡◌, sym, ap}
use ml_crypto_trading.Prelude.Decimal.{DecimalContext}
use ml_crypto_trading.Orders.{Order}
use ml_crypto_trading.Session.Lot.{Trade}
use ml_crypto_trading.Session.Context.{TradingContext}
use ml_crypto_trading.Session.Manager.{SessionManager, TradingSession}
use ml_crypto_trading.Session.Manager.Fills.{Identifiers, Recorded, fill_in, fill_found, store}

-- The second order is the first but for its commit hash.
abbrev pub IsNamed : Order → Order → Type 0
IsNamed order order' = (hash : Option String) × (order' ≡ record order { commit_hash = hash })

module _ (decimals : DecimalContext) (order : Order) where
  store-IsNamed :
      (k : ℕ) (hash : Option String) (s : TradingSession) (m : SessionManager)
      (o : Option (TradingContext × List Trade)) (r : Recorded)
      → store decimals k (record order { commit_hash = hash }) s m o ≡ some r
      → IsNamed order r.1
  store-IsNamed k hash s m none r e = cc
  store-IsNamed k hash s m (some (c, trades)) r e =
      (hash, sym (ap (λ (t : Recorded). t.1) (some-injective _ _ e)))

  fill_found-IsNamed :
      (head : Option String) (ids : Identifiers) (s : TradingSession)
      (found : Option (ℕ × TradingContext)) (m : SessionManager) (r : Recorded)
      → fill_found decimals head ids order s found m ≡ some r
      → IsNamed order r.1
  fill_found-IsNamed head ids s none m r e =
      (order.commit_hash, sym (ap (λ (t : Recorded). t.1) (some-injective _ _ e)))
  fill_found-IsNamed head ids s (some (k, c)) m r e = store-IsNamed k _ s m _ r e

  pub fill_in-IsNamed :
      (head : Option String) (ids : Identifiers) (o : Option TradingSession) (m : SessionManager)
      (r : Recorded)
      → fill_in decimals head ids order o m ≡ some r
      → IsNamed order r.1
  fill_in-IsNamed head ids none m r e =
      (order.commit_hash, sym (ap (λ (t : Recorded). t.1) (some-injective _ _ e)))
  fill_in-IsNamed head ids (some s) m r e = fill_found-IsNamed head ids s _ m r e
