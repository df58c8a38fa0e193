-- ===== src/Execution/Guard/Asked.antt =====
-- src/trading/orders/order_manager.py: the answer of `has_outstanding_intent`.
use mathlib.Core.Logic.{if_pos, if_neg}
use mathlib.Core.Option.{some-injective}
use ml_crypto_trading.Prelude.{
  String, Option, none, some, [], ◌∷◌, Bool, true, ◌||◌, ◌&&◌, any, ◌≡◌, refl, sym, ap, ◌∙◌, arith,
  if_then,
}
use ml_crypto_trading.Prelude.Text.{String-discrete, holds-String-discrete}
use ml_crypto_trading.Prelude.Dict.{Dict, lookup, values}
use ml_crypto_trading.Orders.{Order, TradeAction, buy, sell}
use ml_crypto_trading.Execution.Effects.{Action, returned, pure, ◌>>=◌}
use ml_crypto_trading.Execution.State.{Services, OrderManager}
use ml_crypto_trading.Execution.Reconciling.{action_fits, intent_fits, has_outstanding_intent}
use ml_crypto_trading.Execution.Guard.{IsIntended}

or_true : {b : Bool} (a : Bool) → b ≡ true → (a || b) ≡ true
or_true a h = ground arith

any_value :
    {V : Type 0} (p : V → Bool) (k : String) (v : V) (d : Dict String V)
    → p v ≡ true
    → lookup String-discrete k d ≡ some v
    → any p (values d) ≡ true
any_value p k v [] h e = cc
any_value p k v ((j, w) ∷ d) h e = elim (String-discrete j k) [
  | yes q ↦
      ap (λ b. b || any p (values d))
        (ap p (some-injective _ _ (sym (if_pos (String-discrete j k) q _ _) ∙ e)) ∙ h)
  | no q ↦ or_true (p w) (any_value p k v d h (sym (if_neg (String-discrete j k) q _ _) ∙ e))
]

action_fits_self : (action : TradeAction) → action_fits (some action) action ≡ true
action_fits_self buy = refl
action_fits_self sell = refl

module _ {W : Type 0} (services : Services W) where
  asked :
      (ticker : String) (wanted : Option TradeAction) (s : OrderManager W)
      → any (intent_fits ticker wanted) (values s.in_flight_orders) ≡ true
      → has_outstanding_intent services ticker wanted s ≡ returned true s
  unfolding has_outstanding_intent ◌>>=◌
  asked ticker wanted s h =
      ap (λ (f : Action (OrderManager W) Bool). f s) (if_then _ (pure true) _ h)

  -- While the intent of an order is in flight, `has_outstanding_intent` answers that there is one, for
  -- its ticker and action and for its ticker alone, and changes nothing.
  pub has_outstanding_intent-IsIntended :
      (order : Order) (s : OrderManager W)
      → IsIntended s.in_flight_orders order
      → (has_outstanding_intent services order.ticker_symbol (some order.trade_action) s
          ≡ returned true s)
        × (has_outstanding_intent services order.ticker_symbol none s ≡ returned true s)
  has_outstanding_intent-IsIntended order s h = (
    asked order.ticker_symbol (some order.trade_action) s (
        any_value _ order.uuid _ s.in_flight_orders
          (fits (some order.trade_action) (action_fits_self order.trade_action)) h),
    asked order.ticker_symbol none s
        (any_value _ order.uuid _ s.in_flight_orders (fits none refl) h),
  )
    where
      fits :
          (wanted : Option TradeAction)
          → action_fits wanted order.trade_action ≡ true
          → intent_fits order.ticker_symbol wanted (order.ticker_symbol, order.trade_action) ≡ true
      fits wanted f =
          ap (λ b. b && action_fits wanted order.trade_action)
            (holds-String-discrete order.ticker_symbol order.ticker_symbol refl)
          ∙ f
