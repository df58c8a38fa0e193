-- ===== src/Events/Bus.antt =====
-- src/events/message_event_bus.py and the parts of src/core/interfaces/event.py that it reads. A
-- subscription is the number of its object, and the fresh identifier of a new one is an argument. The
-- lock is left out. A set is iterated in an order that is an argument.
pub mod Publish
use ml_crypto_trading.Prelude.{
  ℕ, ◌+◌, String, Bool, Option, none, some, List, [], ◌∷◌, ◌++◌, any, length, or_else, holds, ◌==◌,
  if◌then◌else◌,
}
use ml_crypto_trading.Prelude.Text.{String-discrete, is_empty_text}
use ml_crypto_trading.Prelude.Dict.{Dict, lookup, insert, erase, values, contains}

-- `_subscriptions`: the subscriptions by event type and identifier.
abbrev pub MessageEventBus : Type 0
MessageEventBus = Dict String (Dict String ℕ)

pub record Event : Type 0 where
  pub type_name : String
  pub alias : Option String
  pub class_name : String

-- `self._subscriptions.get(event_type, {})`
abbrev pub subscribers_of : String → MessageEventBus → Dict String ℕ
subscribers_of event_type bus = or_else (lookup String-discrete event_type bus) []

-- `subscribe`
unfoldable pub subscribe : String → String → ℕ → MessageEventBus → MessageEventBus
subscribe subscription_id event_type subscription bus =
    insert String-discrete event_type
      (insert String-discrete subscription_id subscription (subscribers_of event_type bus)) bus

-- `unsubscribe`
unfoldable pub unsubscribe : String → MessageEventBus → MessageEventBus
unsubscribe subscription_id [] = []
unsubscribe subscription_id ((event_type, subscribers) ∷ bus) =
    let rest = unsubscribe subscription_id bus in
    if contains String-discrete subscription_id subscribers
    then (event_type, erase String-discrete subscription_id subscribers) ∷ bus
    else (event_type, subscribers) ∷ rest

-- `event_types.add(name)`
abbrev pub is_type : String → List String → Bool
is_type name types = any (λ t. holds (String-discrete t name)) types

abbrev pub add_type : String → List String → List String
add_type name types = if is_type name types then types else types ++ name ∷ []

abbrev add_alias : Option String → List String → List String
add_alias none types = types
add_alias (some name) types = if is_empty_text name then types else add_type name types

-- The types that an event is published under; the class name is added once, if at all.
unfoldable pub event_types : Event → List String
event_types event = add_type event.class_name (add_alias event.alias (event.type_name ∷ []))

-- `id(subscription) in seen_ids`
abbrev pub has : ℕ → List ℕ → Bool
has n subscriptions = any (λ m. m == n) subscriptions

-- The subscribers of some types, in the order in which the types are visited.
abbrev pub collect : List String → MessageEventBus → List ℕ
collect [] bus = []
collect (t ∷ types) bus = values (subscribers_of t bus) ++ collect types bus

-- The subscriptions whose `put` is called.
abbrev pub deliver : List ℕ → List ℕ → List ℕ
deliver seen [] = []
deliver seen (s ∷ subscribers) =
    let again = deliver seen subscribers in
    let next = deliver (s ∷ seen) subscribers in if has s seen then again else s ∷ next

-- `publish`: the subscriptions that are called, in order. What a `put` raises is dropped, so that it
-- stops none of them.
unfoldable pub publish : (List String → List String) → Event → MessageEventBus → List ℕ
unfolding event_types
publish iterate event bus = deliver [] (collect (iterate (event_types event)) bus)

abbrev count_all : MessageEventBus → ℕ
count_all [] = 0
count_all ((event_type, subscribers) ∷ bus) = length subscribers + count_all bus

-- `subscriber_count`
abbrev pub subscriber_count : Option String → MessageEventBus → ℕ
subscriber_count none bus = count_all bus
subscriber_count (some event_type) bus = length (subscribers_of event_type bus)

abbrev pub close : MessageEventBus → MessageEventBus
close bus = []
