-- ===== src/Session/Manager/Frame.antt =====
-- src/trading/session/session_manager.py: what `record_order_fill` leaves alone.
use mathlib.Core.Logic.{if_pos, if_neg}
use mathlib.Core.Option.{some-injective}
use mathlib.Core.Path.{subst}
use ml_crypto_trading.Prelude.{
  ℕ, ℕ_discrete, String, Option, none, some, List, [], ◌∷◌, ◌≡◌, ◌≢◌, refl, sym, ap, ◌∙◌,
}
use ml_crypto_trading.Prelude.Text.{String-discrete}
use ml_crypto_trading.Prelude.Dict.{Dict, lookup, insert, IsValid, lookup-insert}
use ml_crypto_trading.Prelude.Decimal.{DecimalContext}
use ml_crypto_trading.Orders.{Order}
use ml_crypto_trading.Session.Lot.{Trade}
use ml_crypto_trading.Session.Context.{TradingContext}
use ml_crypto_trading.Session.Manager.{
  SessionManager, TradingSession, contexts, contexts_of, find_context, get_trading_context,
}
use ml_crypto_trading.Session.Manager.Fills.{
  Identifiers, Recorded, record_order_fill, store, fill_found, fill_in,
}

-- No two contexts of the session have the same key.
abbrev pub AreDistinct : SessionManager → Type 0
AreDistinct m = IsValid ℕ_discrete (λ k c. Unit) (contexts m)

module _ (ticker : String) where
  -- A context that is found stands under its key and has the ticker symbol.
  find_context-lookup :
      (d : Dict ℕ TradingContext) (k : ℕ) (c : TradingContext)
      → IsValid ℕ_discrete (λ k c. Unit) d
      → find_context ticker d ≡ some (k, c)
      → (lookup ℕ_discrete k d ≡ some c) × (c.ticker_symbol ≡ ticker)
  find_context-lookup [] k c h e = cc
  find_context-lookup ((j, c') ∷ d) k c h e = elim (String-discrete c'.ticker_symbol ticker) [
    | yes p ↦
        subst
          (λ (r : ℕ × TradingContext).
            (lookup ℕ_discrete r.0 ((j, c') ∷ d) ≡ some r.1) × (r.1.ticker_symbol ≡ ticker))
          (some-injective _ _ (sym (if_pos (String-discrete c'.ticker_symbol ticker) p _ _) ∙ e))
          (if_pos (ℕ_discrete j j) refl _ _, p)
    | no p ↦
        let (here, same) =
          find_context-lookup d k c h.2
            (sym (if_neg (String-discrete c'.ticker_symbol ticker) p _ _) ∙ e) in
        (
          if_neg (ℕ_discrete j k) (λ q. cc (sym h.1 ∙ ap (λ i. lookup ℕ_discrete i d) q ∙ here)) _ _
              ∙ here,
          same,
        )
  ]

  lookup-found :
      (d : Dict ℕ TradingContext) (k j : ℕ) (c c' after : TradingContext)
      → IsValid ℕ_discrete (λ k c. Unit) d
      → find_context ticker d ≡ some (k, c)
      → lookup ℕ_discrete j d ≡ some c'
      → c'.ticker_symbol ≢ ticker
      → lookup ℕ_discrete j (insert ℕ_discrete k after d) ≡ some c'
  lookup-found d k j c c' after h found other differs =
      let (here, same) = find_context-lookup d k c h found in
      elim (ℕ_discrete k j) [
        | yes p ↦ absurd (
            differs (
              ap (λ (x : TradingContext). x.ticker_symbol)
                (some-injective _ _ (sym other ∙ ap (λ i. lookup ℕ_discrete i d) (sym p) ∙ here))
              ∙ same))
        | no p ↦ lookup-insert ℕ_discrete k j after d ∙ if_neg (ℕ_discrete k j) p _ _ ∙ other
      ]

module _ (decimals : DecimalContext) where
  store-lookup :
      (k : ℕ) (order : Order) (x : TradingSession) (m : SessionManager)
      (filled : Option (TradingContext × List Trade)) (j : ℕ) (c' : TradingContext) (r : Recorded)
      → ((after : TradingContext)
          → lookup ℕ_discrete j (insert ℕ_discrete k after x.trading_contexts) ≡ some c')
      → store decimals k order x m filled ≡ some r
      → lookup ℕ_discrete j (contexts r.0) ≡ some c'
  store-lookup k order x m none j c' r keeps runs = cc
  store-lookup k order x m (some (c, trades)) j c' r keeps runs =
      subst (λ (r : Recorded). lookup ℕ_discrete j (contexts r.0) ≡ some c')
        (some-injective _ _ runs) (keeps c)

  fill_found-lookup :
      (head : Option String) (ids : Identifiers) (order : Order) (x : TradingSession)
      (found : Option (ℕ × TradingContext)) (m : SessionManager) (j : ℕ) (c' : TradingContext)
      (r : Recorded)
      → IsValid ℕ_discrete (λ k c. Unit) x.trading_contexts
      → lookup ℕ_discrete j x.trading_contexts ≡ some c'
      → c'.ticker_symbol ≢ order.ticker_symbol
      → lookup ℕ_discrete j (contexts m) ≡ some c'
      → find_context order.ticker_symbol x.trading_contexts ≡ found
      → fill_found decimals head ids order x found m ≡ some r
      → lookup ℕ_discrete j (contexts r.0) ≡ some c'
  fill_found-lookup head ids order x none m j c' r h other differs same e runs =
      subst (λ (r : Recorded). lookup ℕ_discrete j (contexts r.0) ≡ some c')
        (some-injective _ _ runs) same
  fill_found-lookup head ids order x (some (k, c)) m j c' r h other differs same e runs =
      store-lookup k _ x m _ j c' r
        (λ after.
          lookup-found order.ticker_symbol x.trading_contexts k j c c' after h e other differs)
        runs

  fill_in-lookup :
      (head : Option String) (ids : Identifiers) (order : Order) (o : Option TradingSession)
      (m : SessionManager) (j : ℕ) (c' : TradingContext) (r : Recorded)
      → IsValid ℕ_discrete (λ k c. Unit) (contexts_of o)
      → lookup ℕ_discrete j (contexts_of o) ≡ some c'
      → c'.ticker_symbol ≢ order.ticker_symbol
      → lookup ℕ_discrete j (contexts m) ≡ some c'
      → fill_in decimals head ids order o m ≡ some r
      → lookup ℕ_discrete j (contexts r.0) ≡ some c'
  fill_in-lookup head ids order none m j c' r h other differs same runs = cc
  fill_in-lookup head ids order (some x) m j c' r h other differs same runs =
      fill_found-lookup head ids order x _ m j c' r h other differs same refl runs

  -- Recording the fill of an order leaves a trading context of another ticker symbol as it is, if no
  -- two contexts of the session have the same key.
  pub get_trading_context-record_order_fill :
      (head : Option String) (ids : Identifiers) (order : Order) (m : SessionManager) (j : ℕ)
      (c : TradingContext) (r : Recorded)
      → AreDistinct m
      → get_trading_context j m ≡ some c
      → c.ticker_symbol ≢ order.ticker_symbol
      → record_order_fill decimals head ids order m ≡ some r
      → get_trading_context j r.0 ≡ some c
  unfolding record_order_fill
  get_trading_context-record_order_fill head ids order m j c r h other differs runs =
      fill_in-lookup head ids order m.current_session m j c r h other differs other runs
