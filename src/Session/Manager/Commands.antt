-- ===== src/Session/Manager/Commands.antt =====
-- src/trading/session/session_manager.py: sequences of the operations of `SessionManager`, and what each
-- raises as its phase says. An operation that raises leaves the manager as it is.
use ml_crypto_trading.Prelude.{
  ℕ, String, Option, none, some, List, [], ◌∷◌, Bool, true, false, is_some, ◌≡◌,
}
use ml_crypto_trading.Prelude.Int.{ℤ, ltb_ℤ}
use ml_crypto_trading.Prelude.Decimal.{DecimalContext, zero_dec}
use ml_crypto_trading.Orders.{Order}
use ml_crypto_trading.Session.Manager.{
  after, Outcome, done, raised, SessionError, already_running, no_session, no_active_session,
  SessionManager, SessionTime, Opening, BalanceChanged, create_session, start_session,
  update_commit_hash, init_asset_balance, on_balance_changed, update_available_balance,
  close_asset_balance, end_session, reset_session,
}
use ml_crypto_trading.Session.Manager.Fills.{Identifiers, Recorded, record_order_fill}

-- The calls that change a session manager, but for `record_position`, which always raises an
-- `AttributeError`.
pub data Command : Type 0 where
  create : SessionTime → Option String → String → Option String → Command
  start : ℕ → Command
  commit : String → Command
  open_asset : String → Opening → Command
  balance : BalanceChanged → Command
  available : ℕ → ℤ → Command
  closing : ℕ → ℤ → Command
  fill_order : Option String → Identifiers → Order → Command
  end : ℕ → Command
  reset : Command

abbrev pub outcome_of : Option Recorded → Option Outcome
outcome_of none = none
outcome_of (some r) = some (done r.0)

-- Whether there is a session, and whether it runs: all that decides what a call raises.
abbrev pub Phase : Type 0
Phase = Bool × Bool

abbrev pub phase : SessionManager → Phase
phase m = (is_some m.current_session, m.is_running)

-- What a call raises in a phase, and the phase after it.
abbrev pub answer : Command → Phase → Option SessionError × Phase
answer (create times head id hash) (found, true) = (some already_running, (found, true))
answer (create times head id hash) (found, false) = (none, (true, false))
answer (start now) (true, running) = (none, (true, true))
answer (start now) (false, running) = (some no_session, (false, running))
answer (open_asset lot_id o) (true, running) = (none, (true, running))
answer (open_asset lot_id o) (false, running) = (some no_active_session, (false, running))
answer (end now) (true, true) = (none, (false, false))
answer reset p = (none, (false, false))
answer command p = (none, p)

-- What a sequence of calls raises from a phase.
abbrev pub answers : List Command → Phase → List (Option SessionError)
answers [] p = []
answers (command ∷ commands) p = (answer command p).0 ∷ answers commands (answer command p).1

abbrev pub error_of : Outcome → Option SessionError
error_of (raised e) = some e
error_of (done m) = none

-- The quantity of an order that is filled is positive.
abbrev pub IsProper : Command → Type 0
IsProper (fill_order head ids order) = ltb_ℤ zero_dec order.quantity ≡ true
IsProper _ = Unit

abbrev pub Ran : Type 0
Ran = List (Option SessionError) × SessionManager

abbrev pub add_error : Option SessionError → Option Ran → Option Ran
add_error e none = none
add_error e (some (es, m)) = some (e ∷ es, m)

abbrev pub then_run : SessionManager → (SessionManager → Option Ran) → Option Outcome → Option Ran
then_run m f none = none
then_run m f (some o) = add_error (error_of o) (f (after o m))

module _ (decimals : DecimalContext) where
  -- A call; `none` stands for one that does not come back.
  abbrev pub perform : Command → SessionManager → Option Outcome
  perform (create times head id hash) m = some (create_session times head id hash m)
  perform (start now) m = some (start_session now m)
  perform (commit hash) m = some (done (update_commit_hash hash m))
  perform (open_asset lot_id o) m = some (init_asset_balance decimals lot_id o m)
  perform (balance event) m = some (done (on_balance_changed event m))
  perform (available k b) m = some (done (update_available_balance k b m))
  perform (closing k b) m = some (done (close_asset_balance k b m))
  perform (fill_order head ids order) m = outcome_of (record_order_fill decimals head ids order m)
  perform (end now) m = some (done (end_session now m).0)
  perform reset m = some (done (reset_session m))

  -- A sequence of commands, in their order: what each raised, and the manager in the end.
  unfoldable pub run : List Command → SessionManager → Option Ran
  run [] m = some ([], m)
  run (command ∷ commands) m = then_run m (run commands) (perform command m)
