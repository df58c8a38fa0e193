-- ===== src/Session/Manager/Runs.antt =====
-- src/trading/session/session_manager.py: the runs of the operations of `SessionManager`.
use ml_crypto_trading.Prelude.{
  ℕ, ℕ_discrete, String, Option, none, some, List, [], ◌∷◌, Bool, true, false, is_some, All, ◌≡◌,
  refl, ap, ◌∙◌, inl, inr, Bool-cases,
}
use ml_crypto_trading.Prelude.Dict.{Dict, contains}
use ml_crypto_trading.Prelude.Decimal.{DecimalContext}
use ml_crypto_trading.Orders.{Order}
use ml_crypto_trading.Session.Manager.Fills.Sound.{fill_in-IsSound}
use ml_crypto_trading.Session.Manager.Sound.{
  IsSound, create_session-IsSound, start-IsSound, set_hash-IsSound, init_in-IsSound,
  on_balance_changed-IsSound, update_available_balance-IsSound, close_asset_balance-IsSound,
}
use ml_crypto_trading.Session.Manager.{
  after, Outcome, done, SessionManager, TradingSession, Opening, create_session, init_in,
  change_contexts, start_session, update_commit_hash, init_asset_balance, on_balance_changed,
  update_available_balance, close_asset_balance, end_session,
}
use ml_crypto_trading.Session.Manager.Fills.{
  Identifiers, Recorded, record_order_fill, fill_in, fill_found, store,
}
use ml_crypto_trading.Session.Lot.{Trade}
use ml_crypto_trading.Session.Context.{TradingContext}
use mathlib.Core.Option.{some-injective}
use mathlib.Core.Path.{subst}
use ml_crypto_trading.Session.Manager.Commands.{
  Command, outcome_of, phase, answer, answers, error_of, perform, IsProper, add_error, then_run,
  run, create, start, commit, open_asset, balance, available, closing, fill_order, end, reset,
}

module _ (decimals : DecimalContext) where
  -- A call comes back as its phase says, and keeps the manager sound.
  record IsAnswered (command : Command) (m : SessionManager) (o : Outcome) : Type 0 where
    comes_back : perform decimals command m ≡ some o
    error : error_of o ≡ (answer command (phase m)).0
    next : phase (after o m) ≡ (answer command (phase m)).1
    sound : IsSound (after o m)

  change_phase :
      (change : Dict ℕ TradingContext → Dict ℕ TradingContext) (o : Option TradingSession)
      (b : Bool)
      → phase (change_contexts change o (record { current_session = o; is_running = b }))
        ≡ (is_some o, b)
  change_phase change none b = refl
  change_phase change (some x) b = refl

  store_phase :
      (k : ℕ) (order : Order) (x : TradingSession) (b : Bool)
      (found : Option (TradingContext × List Trade)) (r : Recorded)
      → store decimals k order x (record { current_session = some x; is_running = b }) found
        ≡ some r
      → phase r.0 ≡ (true, b)
  store_phase k order x b none r e = cc
  store_phase k order x b (some (c, trades)) r e =
      subst (λ (r : Recorded). phase r.0 ≡ (true, b)) (some-injective _ _ e) refl

  fill_phase :
      (head : Option String) (ids : Identifiers) (order : Order) (x : TradingSession) (b : Bool)
      (found : Option (ℕ × TradingContext)) (r : Recorded)
      → fill_found decimals head ids order x found
          (record { current_session = some x; is_running = b })
        ≡ some r
      → phase r.0 ≡ (true, b)
  fill_phase head ids order x b none r e =
      subst (λ (r : Recorded). phase r.0 ≡ (true, b)) (some-injective _ _ e) refl
  fill_phase head ids order x b (some (k, c)) r e = store_phase k _ x b _ r e

  fill_in-phase :
      (head : Option String) (ids : Identifiers) (order : Order) (o : Option TradingSession)
      (b : Bool) (r : Recorded)
      → fill_in decimals head ids order o (record { current_session = o; is_running = b }) ≡ some r
      → phase r.0 ≡ (is_some o, b)
  fill_in-phase head ids order none b r e =
      subst (λ (r : Recorded). phase r.0 ≡ (false, b)) (some-injective _ _ e) refl
  fill_in-phase head ids order (some x) b r e = fill_phase head ids order x b _ r e

  open_phase :
      (lot_id : String) (opening : Opening) (o : Option TradingSession) (b : Bool)
      → (error_of
            (init_in decimals lot_id opening o (record { current_session = o; is_running = b }))
          ≡ (answer (open_asset lot_id opening) (is_some o, b)).0)
        × (phase (
              after
                (init_in decimals lot_id opening o (record { current_session = o; is_running = b }))
                (record { current_session = o; is_running = b }))
            ≡ (answer (open_asset lot_id opening) (is_some o, b)).1)
  open_phase lot_id opening none b = (refl, refl)
  open_phase lot_id opening (some x) b =
      elim (Bool-cases (contains ℕ_discrete opening.asset_key x.trading_contexts)) [
        | inl old ↦ rw (init_in, old) (refl, refl)
        | inr new ↦ rw (init_in, new) (refl, refl)
      ]

  perform-IsAnswered :
      (command : Command) (o : Option TradingSession) (b : Bool)
      → IsProper command
      → IsSound (record { current_session = o; is_running = b })
      → (r : Outcome) × IsAnswered command (record { current_session = o; is_running = b }) r
  unfolding create_session start_session update_commit_hash init_asset_balance record_order_fill
      end_session on_balance_changed update_available_balance close_asset_balance
  perform-IsAnswered (create times head id hash) o true h s =
      (_, record { comes_back = refl; error = refl; next = refl; sound = s })
  perform-IsAnswered (create times head id hash) o false h s = (
    _,
    record {
      comes_back = refl;
      error = refl;
      next = refl;
      sound = create_session-IsSound times head id hash _ s;
    },
  )
  perform-IsAnswered (start now) none b h s =
      (_, record { comes_back = refl; error = refl; next = refl; sound = s })
  perform-IsAnswered (start now) (some x) b h s = (
    _,
    record {
      comes_back = refl;
      error = refl;
      next = refl;
      sound = start-IsSound now (some x) _ s s.settled;
    },
  )
  perform-IsAnswered (commit hash) none b h s =
      (_, record { comes_back = refl; error = refl; next = refl; sound = s })
  perform-IsAnswered (commit hash) (some x) b h s = (
    _,
    record {
      comes_back = refl;
      error = refl;
      next = refl;
      sound = set_hash-IsSound hash (some x) _ s s.settled;
    },
  )
  perform-IsAnswered (open_asset lot_id opening) o b h s =
      let (error, next) = open_phase lot_id opening o b in
      (
        _,
        record {
          comes_back = refl;
          error = error;
          next = next;
          sound = init_in-IsSound decimals lot_id opening o _ s s.settled;
        },
      )
  perform-IsAnswered (balance event) o b h s = (
    _,
    record {
      comes_back = refl;
      error = refl;
      next = change_phase _ o b;
      sound = on_balance_changed-IsSound event _ s;
    },
  )
  perform-IsAnswered (available k c) o b h s = (
    _,
    record {
      comes_back = refl;
      error = refl;
      next = change_phase _ o b;
      sound = update_available_balance-IsSound k c _ s;
    },
  )
  perform-IsAnswered (closing k c) o b h s = (
    _,
    record {
      comes_back = refl;
      error = refl;
      next = change_phase _ o b;
      sound = close_asset_balance-IsSound k c _ s;
    },
  )
  perform-IsAnswered (fill_order head ids order) o b h s =
      let m : SessionManager = record { current_session = o; is_running = b } in
      let (r, e, s') = fill_in-IsSound decimals head ids order o m h s s.settled in
      (
        done r.0,
        record {
          comes_back = ap outcome_of e;
          error = refl;
          next = fill_in-phase head ids order o b r e;
          sound = s';
        },
      )
  perform-IsAnswered (end now) none b h s =
      (_, record { comes_back = refl; error = refl; next = refl; sound = s })
  perform-IsAnswered (end now) (some x) true h s = (
    _,
    record {
      comes_back = refl;
      error = refl;
      next = refl;
      sound = record { running = λ e. cc; settled = tt };
    },
  )
  perform-IsAnswered (end now) (some x) false h s =
      (_, record { comes_back = refl; error = refl; next = refl; sound = s })
  perform-IsAnswered reset o b h s = (
    _,
    record {
      comes_back = refl;
      error = refl;
      next = refl;
      sound = record { running = λ e. cc; settled = tt };
    },
  )

  -- Whatever operations are called in whatever order, on a session manager that is sound at the start:
  -- each comes back, with the ValueError of `create_session` while the manager runs, of `start_session`
  -- and `init_asset_balance` without a session, and with no error otherwise; and the manager stays
  -- sound: it runs only with a session, and in every trading context of the session the position is what
  -- the lots hold and all lots are open. The quantities of the orders that are filled are positive, and
  -- the operations are all that change the manager but `record_position`.
  pub run-IsSound :
      (commands : List Command) (m : SessionManager)
      → All IsProper commands
      → IsSound m
      → (m' : SessionManager) × (run decimals commands m ≡ some (answers commands (phase m), m'))
        × IsSound m'
  unfolding run
  run-IsSound [] m h s = (m, refl, s)
  run-IsSound (command ∷ commands) m h s =
      let (o, a) = perform-IsAnswered command m.current_session m.is_running h.0 s in
      let (m', e, s') = run-IsSound commands (after o m) h.1 a.sound in
      (
        m',
        ap (then_run m (run decimals commands)) a.comes_back
            ∙ ap (add_error (error_of o)) e
            ∙ rw (a.error, a.next) refl,
        s',
      )
