-- ===== src/Events/Subscription.antt =====
-- src/events/message_subscription.py, over Python's `queue.Queue`: a queue with a positive `maxsize`
-- is full from that size on, any other never is. Each method is one step, as with one publisher; an
-- event is a value of any type, and `None` in the queue is the mark that `close` puts there.
pub mod Window
use ml_crypto_trading.Prelude.{
  ℕ, ◌+◌, Bool, true, false, ◌&&◌, Option, none, some, List, [], ◌∷◌, ◌++◌, length, ltb, leb,
  if◌then◌else◌,
}

pub record MessageSubscription {ℓ} (E : Type ℓ) : Type ℓ where
  pub max_size : ℕ
  pub queue : List (Option E)
  pub dropped : ℕ
  pub closed : Bool

module _ {ℓ} {E : Type ℓ} where
  -- `MessageSubscription.__init__`
  abbrev pub create : ℕ → MessageSubscription E
  create max_size = record { max_size = max_size; queue = []; dropped = 0; closed = false }

  -- Whether `put_nowait` raises `queue.Full`.
  abbrev pub is_full : ℕ → List (Option E) → Bool
  is_full max_size queue = ltb 0 max_size && leb max_size (length queue)

  -- The queue after `get_nowait`; an empty one stays as it is.
  abbrev pub without_oldest : List (Option E) → List (Option E)
  without_oldest [] = []
  without_oldest (x ∷ queue) = queue

  -- `put_nowait` with `queue.Full` ignored.
  abbrev pub try_put : ℕ → Option E → List (Option E) → List (Option E)
  try_put max_size x queue = if is_full max_size queue then queue else queue ++ x ∷ []

  -- The queue after `put_nowait`, or after the handler of `queue.Full`.
  abbrev pub force_put : ℕ → Option E → List (Option E) → List (Option E)
  force_put max_size x queue =
      if is_full max_size queue then try_put max_size x (without_oldest queue) else queue ++ x ∷ []

  -- `put`
  unfoldable pub put : E → MessageSubscription E → MessageSubscription E
  put event s = if s.closed then s else record s {
    queue = force_put s.max_size (some event) s.queue;
    dropped = if is_full s.max_size s.queue then s.dropped + 1 else s.dropped;
  }

  -- `take_dropped`
  unfoldable pub take_dropped : MessageSubscription E → MessageSubscription E × ℕ
  take_dropped s = (record s { dropped = 0 }, s.dropped)

  -- `close`
  unfoldable pub close : MessageSubscription E → MessageSubscription E
  close s =
      if s.closed then s else record s { queue = force_put s.max_size none s.queue; closed = true }
