-- ===== src/Events/Bus/Publish.antt =====
-- src/events/message_event_bus.py: who is called when an event is published.
use ml_crypto_trading.Prelude.{
  ℕ, String, Bool, true, false, not, ◌&&◌, ◌||◌, List, [], ◌∷◌, ◌++◌, any, ◌==◌, if_cases, arith,
  ◌≡◌, refl, sym, ◌∙◌, ap,
}
use ml_crypto_trading.Prelude.Dict.{values}
use ml_crypto_trading.Events.Bus.{
  MessageEventBus, Event, subscribers_of, has, collect, deliver, event_types, publish,
}

-- No subscription occurs twice.
abbrev pub AreDistinct : List ℕ → Type 0
AreDistinct [] = Unit
AreDistinct (s ∷ rest) = (has s rest ≡ false) × AreDistinct rest

has-append : (n : ℕ) (xs ys : List ℕ) → has n (xs ++ ys) ≡ (has n xs || has n ys)
has-append n [] ys = refl
has-append n (x ∷ xs) ys = ground (arith, has-append n xs ys)

same_has : (x n : ℕ) (seen : List ℕ) → (x == n) ≡ true → has x seen ≡ has n seen
same_has x n seen e = ap (λ m. has m seen) (ground (arith, e))

seen_before : (q a s : Bool) → (q ≡ true → true ≡ s) → (a && not s) ≡ ((q || a) && not s)
seen_before true a true h = ground arith
seen_before true a false h = cc (h refl)
seen_before false a s h = refl

seen_now :
    (q a s : Bool) → (q ≡ true → false ≡ s) → (q || (a && not (q || s))) ≡ ((q || a) && not s)
seen_now true a true h = cc (h refl)
seen_now true a false h = refl
seen_now false a s h = refl

has-deliver : (n : ℕ) (seen xs : List ℕ) → has n (deliver seen xs) ≡ (has n xs && not (has n seen))
has-deliver n seen [] = refl
has-deliver n seen (x ∷ xs) =
    if_cases (λ r. has n r ≡ (has n (x ∷ xs) && not (has n seen))) (has x seen)
      (λ e.
        has-deliver n seen xs
        ∙ seen_before (x == n) (has n xs) (has n seen) (λ q. sym e ∙ same_has x n seen q))
      (λ e.
        ap (λ b. x == n || b) (has-deliver n (x ∷ seen) xs)
        ∙ seen_now (x == n) (has n xs) (has n seen) (λ q. sym e ∙ same_has x n seen q))

and_false : (a : Bool) → (a && false) ≡ false
and_false true = refl
and_false false = refl

and_true : (a : Bool) → (a && true) ≡ a
and_true true = refl
and_true false = refl

same_number : (x : ℕ) → (x == x) ≡ true
same_number x = ground arith

not_again : (x : ℕ) (xs seen : List ℕ) → has x (deliver (x ∷ seen) xs) ≡ false
not_again x xs seen = has-deliver x (x ∷ seen) xs ∙ rw (same_number x) (and_false (has x xs))

deliver-AreDistinct : (seen xs : List ℕ) → AreDistinct (deliver seen xs)
deliver-AreDistinct seen [] = tt
deliver-AreDistinct seen (x ∷ xs) =
    if_cases AreDistinct (has x seen) (λ e. deliver-AreDistinct seen xs)
      (λ e. (not_again x xs seen, deliver-AreDistinct (x ∷ seen) xs))

has-collect :
    (n : ℕ) (types : List String) (bus : MessageEventBus)
    → has n (collect types bus) ≡ any (λ t. has n (values (subscribers_of t bus))) types
has-collect n [] bus = refl
has-collect n (t ∷ types) bus =
    has-append n (values (subscribers_of t bus)) (collect types bus)
    ∙ ap (λ b. has n (values (subscribers_of t bus)) || b) (has-collect n types bus)

-- Publishing an event calls exactly the subscriptions that are subscribed to one of its types, and each
-- of them once, however often it is subscribed and in whatever order Python iterates a set: that the
-- iteration visits the members of the set is all that is asked of it.
pub publish_lem :
    (iterate : List String → List String) (event : Event) (bus : MessageEventBus)
    → ((p : String → Bool) → any p (iterate (event_types event)) ≡ any p (event_types event))
    → AreDistinct (publish iterate event bus)
      × ((n : ℕ)
          → has n (publish iterate event bus)
            ≡ any (λ t. has n (values (subscribers_of t bus))) (event_types event))
unfolding publish
publish_lem iterate event bus h = (
  deliver-AreDistinct [] (collect (iterate (event_types event)) bus),
  λ n.
      has-deliver n [] (collect (iterate (event_types event)) bus)
      ∙ and_true (has n (collect (iterate (event_types event)) bus))
      ∙ has-collect n (iterate (event_types event)) bus
      ∙ h (λ t. has n (values (subscribers_of t bus))),
)
