-- ===== src/Tests/EventsTests.antt =====
-- The theorems about src/events at concrete inputs.
use ml_crypto_trading.Prelude.{String, any, none, refl}
use ml_crypto_trading.Prelude.Dict.{values}
use ml_crypto_trading.Prelude.Text.{String-discrete, decide_by}
use ml_crypto_trading.Events.Bus.{MessageEventBus, Event, subscribers_of, event_types, has, publish}
use ml_crypto_trading.Events.Bus.Publish.{AreDistinct, publish_lem}
use ml_crypto_trading.Prelude.{ℕ, ◌-◌, ◌≤◌, ◌≡◌, some, List, [], ◌∷◌, map, length, arith}
use ml_crypto_trading.Events.Subscription.{create}
use ml_crypto_trading.Events.Subscription.Window.{last_ones, put_all, put_all-last_ones}

abbrev published : List ℕ
published = 1 ∷ 2 ∷ 3 ∷ []

put_all-last_ones_example :
    let s = put_all published (create 2) in
    (s.queue ≡ last_ones 2 (map some published))
    × (s.dropped ≡ length published - 2)
    × (length s.queue ≤ 2)
put_all-last_ones_example = put_all-last_ones 2 published (omega arith)

-- Subscription 7 follows two types of the event, 8 one of them, and 9 another event.
abbrev bus : MessageEventBus
bus =
    ("ORDER_FILLED", ("a", 7) ∷ ("b", 8) ∷ [])
    ∷ ("OrderFilledEvent", ("c", 7) ∷ [])
    ∷ ("MARKET_DATA", ("d", 9) ∷ [])
    ∷ []

abbrev filled : Event
filled = record { type_name = "ORDER_FILLED"; alias = none; class_name = "OrderFilledEvent" }

abbrev in_order : List String → List String
in_order types = types

publish_lem_example :
    AreDistinct (publish in_order filled bus)
    × ((n : ℕ)
        → has n (publish in_order filled bus)
          ≡ any (λ t. has n (values (subscribers_of t bus))) (event_types filled))
publish_lem_example = publish_lem in_order filled bus (λ p. refl)

calls : publish in_order filled bus ≡ 7 ∷ 8 ∷ []
unfolding publish String-discrete decide_by
calls = refl
