-- ===== src/Consensus/Manager/Names.antt =====
-- src/trading/consensus/consensus_manager.py: the names and tickers of the registered strategies.
use ml_crypto_trading.Prelude.{
  Option, none, some, Option-cases, List, [], ◌∷◌, ◌++◌, or_else, if◌then◌else◌, All, ◌≡◌, refl,
  inl, inr, ◌==◌, if_intro,
}
use ml_crypto_trading.Prelude.Dict.{
  Dict, keys, lookup, contains, IsValid, insert-IsValid, erase-IsValid, lookup-IsValid,
}
use ml_crypto_trading.Orders.{TradeAction}
use ml_crypto_trading.Consensus.Strategy.{TradingStrategy}
use ml_crypto_trading.Consensus.Manager.{
  ConsensusManager, ConsensusError, Action-discrete, Result, ok, raised, no_ticker_symbols,
  is_unbound, conflict, first_conflict, add_strategy, register_strategy, registered, remove,
  remove_at, remove_all, put_back, unregister_strategy,
}

-- No two strategies of a list conflict.
abbrev pub AreCompatible : List TradingStrategy → Type 0
AreCompatible [] = Unit
AreCompatible (other ∷ rest) = All (λ s. conflict s other ≡ none) rest × AreCompatible rest

-- The strategies of each action do not conflict.
abbrev pub IsConsistent : ConsensusManager → Type 0
IsConsistent m = IsValid Action-discrete (λ a strategies. AreCompatible strategies) m.strategies

All-append :
    (other s : TradingStrategy) (xs : List TradingStrategy)
    → All (λ s. conflict s other ≡ none) xs
    → conflict s other ≡ none
    → All (λ s. conflict s other ≡ none) (xs ++ s ∷ [])
All-append other s [] h e = (e, tt)
All-append other s (x ∷ xs) h e = (h.0, All-append other s xs h.1 e)

conflict_parts :
    (s other : TradingStrategy) (existing : List TradingStrategy)
    → first_conflict s (other ∷ existing) ≡ none
    → (conflict s other ≡ none) × (first_conflict s existing ≡ none)
conflict_parts s other existing h = go (conflict s other) refl h
  where
    go :
        (c : Option ConsensusError)
        → conflict s other ≡ c
        → elim c [ none ↦ first_conflict s existing | some e ↦ some e ] ≡ none
        → (conflict s other ≡ none) × (first_conflict s existing ≡ none)
    go none e h = (e, h)
    go (some x) e h = cc

append-AreCompatible :
    (s : TradingStrategy) (existing : List TradingStrategy)
    → AreCompatible existing
    → first_conflict s existing ≡ none
    → AreCompatible (existing ++ s ∷ [])
append-AreCompatible s [] h e = (tt, tt)
append-AreCompatible s (other ∷ existing) h e =
    let (c, rest) = conflict_parts s other existing e in
    (All-append other s existing h.0 c, append-AreCompatible s existing h.1 rest)

remove-All :
    (P : TradingStrategy → Type 0) (s : TradingStrategy) (xs : List TradingStrategy)
    → All P xs
    → All P (remove s xs)
remove-All P s [] h = tt
remove-All P s (x ∷ xs) h =
    if_intro (All P) (x.object_id == s.object_id) h.1 (h.0, remove-All P s xs h.1)

remove-AreCompatible :
    (s : TradingStrategy) (xs : List TradingStrategy)
    → AreCompatible xs
    → AreCompatible (remove s xs)
remove-AreCompatible s [] h = tt
remove-AreCompatible s (x ∷ xs) h =
    if_intro AreCompatible (x.object_id == s.object_id) h.1
      (remove-All (λ y. conflict y x ≡ none) s xs h.0, remove-AreCompatible s xs h.1)

pub registered-AreCompatible :
    (a : TradeAction) (d : Dict TradeAction (List TradingStrategy))
    → IsValid Action-discrete (λ a strategies. AreCompatible strategies) d
    → AreCompatible (or_else (lookup Action-discrete a d) [])
registered-AreCompatible a d h = elim (Option-cases (lookup Action-discrete a d)) [
  | inl e ↦ rw e tt
  | inr (xs, e) ↦ rw e (lookup-IsValid Action-discrete (λ a xs. AreCompatible xs) a d h e)
]

put_back-IsValid :
    (a : TradeAction) (xs : List TradingStrategy) (d : Dict TradeAction (List TradingStrategy))
    → AreCompatible xs
    → IsValid Action-discrete (λ a strategies. AreCompatible strategies) d
    → IsValid Action-discrete (λ a strategies. AreCompatible strategies) (put_back a xs d)
put_back-IsValid a [] d c h = erase-IsValid Action-discrete (λ a xs. AreCompatible xs) a d h
put_back-IsValid a (x ∷ xs) d c h =
    insert-IsValid Action-discrete (λ a xs. AreCompatible xs) a (x ∷ xs) d c h

remove_at-IsValid :
    (s : TradingStrategy) (a : TradeAction) (d : Dict TradeAction (List TradingStrategy))
    → IsValid Action-discrete (λ a strategies. AreCompatible strategies) d
    → IsValid Action-discrete (λ a strategies. AreCompatible strategies) (remove_at s a d)
remove_at-IsValid s a d h =
    if_intro (IsValid Action-discrete (λ a xs. AreCompatible xs)) _
      (put_back-IsValid a _ d (remove-AreCompatible s _ (registered-AreCompatible a d h)) h) h

remove_all-IsValid :
    (s : TradingStrategy) (actions : List TradeAction) (d : Dict TradeAction (List TradingStrategy))
    → IsValid Action-discrete (λ a strategies. AreCompatible strategies) d
    → IsValid Action-discrete (λ a strategies. AreCompatible strategies) (remove_all s actions d)
remove_all-IsValid s [] d h = h
remove_all-IsValid s (a ∷ actions) d h =
    remove_all-IsValid s actions (remove_at s a d) (remove_at-IsValid s a d h)

-- The calls that change the strategies of a manager; one that raises leaves it as it is.
pub data Change : Type 0 where
  register unregister : TradingStrategy → Change

abbrev after : Result ConsensusManager → ConsensusManager → ConsensusManager
after (ok m') m = m'
after (raised e) m = m

abbrev pub change : Change → ConsensusManager → ConsensusManager
change (register s) m = after (register_strategy s m) m
change (unregister s) m = unregister_strategy s m

abbrev pub run : List Change → ConsensusManager → ConsensusManager
run [] m = m
run (c ∷ changes) m = run changes (change c m)

add_strategy-IsConsistent :
    (s : TradingStrategy) (m : ConsensusManager) (clashing : Option ConsensusError)
    → first_conflict s (registered s.action m) ≡ clashing
    → IsConsistent m
    → IsConsistent (after (add_strategy clashing s m) m)
add_strategy-IsConsistent s m none e h =
    insert-IsValid Action-discrete (λ a xs. AreCompatible xs) s.action _ m.strategies
      (append-AreCompatible s _ (registered-AreCompatible s.action m.strategies h) e) h
add_strategy-IsConsistent s m (some x) e h = h

change-IsConsistent :
    (c : Change) (m : ConsensusManager) → IsConsistent m → IsConsistent (change c m)
unfolding register_strategy unregister_strategy
change-IsConsistent (register s) m h =
    if_intro (λ r. IsConsistent (after r m)) (is_unbound s.ticker_symbols)
      {x = raised no_ticker_symbols}
      {y = add_strategy (first_conflict s (registered s.action m)) s m} h
      (add_strategy-IsConsistent s m (first_conflict s (registered s.action m)) refl h)
change-IsConsistent (unregister s) m h =
    remove_all-IsValid s
      (if contains Action-discrete s.action m.strategies then s.action ∷ [] else keys m.strategies)
      m.strategies h

pub run-IsConsistent :
    (changes : List Change) (m : ConsensusManager) → IsConsistent m → IsConsistent (run changes m)
run-IsConsistent [] m h = h
run-IsConsistent (c ∷ changes) m h =
    run-IsConsistent changes (change c m) (change-IsConsistent c m h)
