-- ===== src/Session/Manager/Sound.antt =====
-- src/trading/session/session_manager.py: what every session manager that is reached satisfies.
use mathlib.Core.Logic.{if_pos, if_neg}
use mathlib.Core.Option.{some-injective}
use mathlib.Core.Path.{subst}
use ml_crypto_trading.Prelude.{
  Option-cases, ℕ, ℕ_discrete, String, Option, none, some, [], ◌∷◌, Bool, true, false, Bool-cases,
  is_some, if◌then◌else◌, arith, ◌≡◌, refl, sym, ap, ◌∙◌, inl, inr, if_intro,
}
use ml_crypto_trading.Prelude.Text.{String-discrete}
use ml_crypto_trading.Prelude.Dict.{Dict, lookup, contains, IsValid, insert-IsValid, lookup-IsValid}
use ml_crypto_trading.Prelude.Int.{ℤ, ltb_ℤ, int_laws}
use ml_crypto_trading.Prelude.Decimal.{DecimalContext, zero_dec}
use ml_crypto_trading.Session.Context.{TradingContext}
use ml_crypto_trading.Session.Context.Settled.{IsSettled}
use ml_crypto_trading.Session.Matcher.Fifo.{total_remaining}
use ml_crypto_trading.Session.Manager.{
  SessionManager, TradingSession, SessionTime, Opening, BalanceChanged, create_session,
  on_balance_changed, update_available_balance, close_asset_balance, contexts, contexts_of,
  change_contexts, set_hash, init_in, ended, start, after, set_available, each_context, change_at,
  find_context, opening_context,
}

abbrev pub AreSettled : Dict ℕ TradingContext → Type 0
AreSettled = IsValid ℕ_discrete (λ k c. IsSettled c)

-- A running manager has a session, and every context of the session is settled.
pub record IsSound (m : SessionManager) : Type 0 where
  pub running : m.is_running ≡ true → is_some m.current_session ≡ true
  pub settled : AreSettled (contexts m)

set_if :
    (b : Bool) (amount : ℤ) (c : TradingContext)
    → IsSettled c
    → IsSettled (if b then record c { available_balance = amount } else c)
set_if true amount c s = record { lots_open = s.lots_open; position = s.position }
set_if false amount c s = s

set_available-IsSettled :
    (event : BalanceChanged) (c : TradingContext) → IsSettled c → IsSettled (set_available event c)
set_available-IsSettled event c s = set_if _ event.available c s

pub find_context-IsSettled :
    (ticker : String) (d : Dict ℕ TradingContext)
    → AreSettled d
    → (k : ℕ) (c : TradingContext) → find_context ticker d ≡ some (k, c)
    → IsSettled c
find_context-IsSettled ticker [] h k c e = cc
find_context-IsSettled ticker ((j, c') ∷ d) h k c e =
    elim (String-discrete c'.ticker_symbol ticker) [
      | yes p ↦
          subst IsSettled
            (ap (λ (r : ℕ × TradingContext). r.1)
              (some-injective _ _
                (sym (if_pos (String-discrete c'.ticker_symbol ticker) p _ _) ∙ e)))
            h.0
      | no p ↦
          find_context-IsSettled ticker d h.2 k c
            (sym (if_neg (String-discrete c'.ticker_symbol ticker) p _ _) ∙ e)
    ]

lookup-each_context :
    (change : TradingContext → TradingContext) (k : ℕ) (d : Dict ℕ TradingContext)
    → lookup ℕ_discrete k d ≡ none
    → lookup ℕ_discrete k (each_context change d) ≡ none
lookup-each_context change k [] h = refl
lookup-each_context change k ((j, c) ∷ d) h = ground (arith, lookup-each_context change k d)

each_context-IsValid :
    (event : BalanceChanged) (d : Dict ℕ TradingContext)
    → AreSettled d
    → AreSettled (each_context (set_available event) d)
each_context-IsValid event [] h = tt
each_context-IsValid event ((k, c) ∷ d) h = (
  set_available-IsSettled event c h.0,
  lookup-each_context (set_available event) k d h.1,
  each_context-IsValid event d h.2,
)

change_at-IsValid :
    (k : ℕ) (change : TradingContext → TradingContext) (d : Dict ℕ TradingContext)
    → ((c : TradingContext) → IsSettled c → IsSettled (change c))
    → AreSettled d
    → AreSettled (change_at k change d)
change_at-IsValid k change d keeps h = elim (Option-cases (lookup ℕ_discrete k d)) [
  | inl missing ↦ rw (change_at, missing) h
  | inr (c, e) ↦
      rw (change_at, e)
        (insert-IsValid ℕ_discrete (λ k c. IsSettled c) k (change c) d
          (keeps c (lookup-IsValid ℕ_discrete (λ k c. IsSettled c) k d h e)) h)
]

change_contexts-IsSound :
    (change : Dict ℕ TradingContext → Dict ℕ TradingContext) (o : Option TradingSession)
    (m : SessionManager)
    → ((d : Dict ℕ TradingContext) → AreSettled d → AreSettled (change d))
    → IsSound m
    → AreSettled (contexts_of o)
    → IsSound (change_contexts change o m)
change_contexts-IsSound change none m keeps s h = s
change_contexts-IsSound change (some x) m keeps s h = record {
  running = λ e. refl;
  settled = keeps x.trading_contexts h;
}

pub start-IsSound :
    (now : ℕ) (o : Option TradingSession) (m : SessionManager)
    → IsSound m
    → AreSettled (contexts_of o)
    → IsSound (after (start now o m) m)
start-IsSound now none m s h = s
start-IsSound now (some x) m s h = record { running = λ e. refl; settled = h }

pub set_hash-IsSound :
    (hash : String) (o : Option TradingSession) (m : SessionManager)
    → IsSound m
    → AreSettled (contexts_of o)
    → IsSound (set_hash hash o m)
set_hash-IsSound hash none m s h = s
set_hash-IsSound hash (some x) m s h = record { running = λ e. refl; settled = h }

pub ended-IsSound :
    (now : ℕ) (o : Option TradingSession) (m : SessionManager)
    → IsSound m
    → IsSound (ended now o m).0
ended-IsSound now none m s = s
ended-IsSound now (some x) m s =
    if_intro (λ (r : SessionManager × Option TradingSession). IsSound r.0) m.is_running
      (record { running = λ e. cc; settled = tt }) s

pub create_session-IsSound :
    (times : SessionTime) (head : Option String) (id : String) (hash : Option String)
    (m : SessionManager)
    → IsSound m
    → IsSound (after (create_session times head id hash m) m)
unfolding create_session
create_session-IsSound times head id hash m s =
    if_intro (λ r. IsSound (after r m)) m.is_running s
      (record { running = λ e. refl; settled = tt })

pub on_balance_changed-IsSound :
    (event : BalanceChanged) (m : SessionManager) → IsSound m → IsSound (on_balance_changed event m)
unfolding on_balance_changed
on_balance_changed-IsSound event m s =
    change_contexts-IsSound _ m.current_session m (each_context-IsValid event) s s.settled

pub update_available_balance-IsSound :
    (k : ℕ) (b : ℤ) (m : SessionManager) → IsSound m → IsSound (update_available_balance k b m)
unfolding update_available_balance
update_available_balance-IsSound k b m s =
    change_contexts-IsSound _ m.current_session m
      (λ d.
        change_at-IsValid k _ d (λ c t. record { lots_open = t.lots_open; position = t.position }))
      s s.settled

pub close_asset_balance-IsSound :
    (k : ℕ) (b : ℤ) (m : SessionManager) → IsSound m → IsSound (close_asset_balance k b m)
unfolding close_asset_balance
close_asset_balance-IsSound k b m s =
    change_contexts-IsSound _ m.current_session m
      (λ d.
        change_at-IsValid k _ d (λ c t. record { lots_open = t.lots_open; position = t.position }))
      s s.settled

module _ (decimals : DecimalContext) where
  opening_context-IsSettled :
      (lot_id : String) (hash : Option String) (o : Opening)
      → IsSettled (opening_context decimals lot_id hash o)
  unfolding opening_context total_remaining
  opening_context-IsSettled lot_id hash o =
      elim (Bool-cases (ltb_ℤ zero_dec o.initial_position_qty)) [
        | inl positive ↦
            rw positive (record { lots_open = (positive, tt); position = omega int_laws })
        | inr none_held ↦ rw none_held (record { lots_open = tt; position = refl })
      ]

  pub init_in-IsSound :
      (lot_id : String) (o : Opening) (x : Option TradingSession) (m : SessionManager)
      → IsSound m
      → AreSettled (contexts_of x)
      → IsSound (after (init_in decimals lot_id o x m) m)
  init_in-IsSound lot_id o none m s h = s
  init_in-IsSound lot_id o (some x) m s h =
      elim (Bool-cases (contains ℕ_discrete o.asset_key x.trading_contexts)) [
        | inl old ↦ rw (init_in, old) s
        | inr new ↦
            rw (init_in, new)
              (record {
                running = λ e. refl;
                settled =
                    insert-IsValid ℕ_discrete (λ k c. IsSettled c) o.asset_key _ x.trading_contexts
                      (opening_context-IsSettled lot_id x.commit_hash o) h;
              })
      ]
