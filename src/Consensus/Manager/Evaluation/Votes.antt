-- ===== src/Consensus/Manager/Evaluation/Votes.antt =====
-- src/trading/consensus/consensus_manager.py: the votes of an evaluation.
use mathlib.Core.Logic.{if_pos, if_neg}
use mathlib.Core.Option.{some-injective}
use ml_crypto_trading.Prelude.{
  if_cases, if_then, ◌||◌, ℕ, String, Bool, true, false, ◌&&◌, Option, none, some, List, [], ◌∷◌,
  holds, if◌then◌else◌, All, ◌≡◌, ◌≢◌, refl, sym, ◌∙◌, ap,
}
use ml_crypto_trading.Prelude.Text.{String-discrete}
use ml_crypto_trading.Prelude.Dict.{lookup, insert, lookup-insert, lookup-insert_self}
use ml_crypto_trading.Orders.{TradeAction}
use ml_crypto_trading.Consensus.Strategy.{TradingStrategy, Clock, resolve_effective_weight}
use ml_crypto_trading.Consensus.Decision.{ConsensusDecision, ConsensusFactor}
use ml_crypto_trading.Consensus.Manager.{
  ConsensusManager, Result, ok, raised, conflict, clash, clash_of, overlap, is_member, admits,
  is_eligible, eligible_strategies, registered,
}
use ml_crypto_trading.Consensus.Manager.Evaluation.{
  Ballot, vote_of, cast, collect_votes, ballot_of, factor_of, decide, decided, evaluate,
}
use ml_crypto_trading.Consensus.Manager.Names.{
  registered-AreCompatible, AreCompatible, IsConsistent,
}

not_both : (b : Bool) → b ≡ true → b ≡ false → ⊥
not_both true h k = cc
not_both false h k = cc

or_right : {P : Type 0} (d : Dec P) (c : Bool) → ¬ P → holds d || c ≡ true → c ≡ true
or_right (yes p) c n e = absurd (n p)
or_right (no p) c n e = e

and_left : (a b : Bool) → a && b ≡ true → a ≡ true
and_left true b e = refl
and_left false b e = cc

and_right : (a b : Bool) → a && b ≡ true → b ≡ true
and_right true b e = e
and_right false b e = cc

kept_clash :
    (b : Bool) (x : String) (rest : List String)
    → clash_of (if b then x ∷ rest else rest) ≡ none
    → (b ≡ false) × (clash_of rest ≡ none)
kept_clash true x rest e = cc
kept_clash false x rest e = (refl, e)

overlap_both :
    (t : String) (others new : List String)
    → is_member t others ≡ true
    → is_member t new ≡ true
    → clash_of (overlap others new) ≢ none
overlap_both t [] new h k e = cc
overlap_both t (x ∷ others) new h k e =
    let (missing, rest) = kept_clash (is_member x new) x (overlap others new) e in
    elim (String-discrete x t) [
      | yes p ↦ not_both (is_member x new) (ap (λ y. is_member y new) p ∙ k) missing
      | no p ↦
          overlap_both t others new (or_right (String-discrete x t) (is_member t others) p h) k rest
    ]

clash_admitted :
    (t : String) (a b : Option (List String))
    → admits a t ≡ true
    → admits b t ≡ true
    → clash a b ≢ none
clash_admitted t none b h k e = cc
clash_admitted t (some others) none h k e = cc
clash_admitted t (some others) (some new) h k e = overlap_both t others new h k e

-- Two strategies that vote on one ticker symbol and do not conflict have different names.
names_differ :
    (t : String) (s other : TradingStrategy)
    → conflict s other ≡ none
    → is_eligible t s ≡ true
    → is_eligible t other ≡ true
    → other.name ≢ s.name
names_differ t s other c hs ho same =
    clash_admitted t other.ticker_symbols s.ticker_symbols (and_right other.enabled _ ho)
      (and_right s.enabled _ hs) (sym (if_pos (String-discrete other.name s.name) same _ _) ∙ c)

-- No two strategies of a list have the same name.
abbrev HaveNames : List TradingStrategy → Type 0
HaveNames [] = Unit
HaveNames (s ∷ rest) = All (λ (o : TradingStrategy). s.name ≢ o.name) rest × HaveNames rest

module _ (weight_at : TradingStrategy → ℕ) (get_quorum : TradingStrategy → Option Bool) where
  -- A strategy's vote and weight stand under its name.
  abbrev IsCounted : Ballot → TradingStrategy → Type 0
  IsCounted b s =
      (lookup String-discrete s.name b.0 ≡ vote_of weight_at get_quorum s)
      × (lookup String-discrete s.name b.1 ≡ some (weight_at s))

  abbrev pub cast_on : TradingStrategy → Bool → Ballot → Ballot
  cast_on s v b =
      (insert String-discrete s.name v b.0, insert String-discrete s.name (weight_at s) b.1)

  collect_cast :
      (s : TradingStrategy) (xs : List TradingStrategy) (before b : Ballot) (o : Option Bool)
      → vote_of weight_at get_quorum s ≡ o
      → elim (cast weight_at get_quorum s o before) [
        | none ↦ none
        | some ballot ↦ collect_votes weight_at get_quorum xs ballot
      ]
        ≡ some b
      → (v : Bool) × (vote_of weight_at get_quorum s ≡ some v)
        × (collect_votes weight_at get_quorum xs (cast_on s v before) ≡ some b)
  collect_cast s xs before b none o e = cc
  collect_cast s xs before b (some v) o e = (v, o, e)

  pub collect_parts :
      (s : TradingStrategy) (xs : List TradingStrategy) (before b : Ballot)
      → s.enabled ≡ true
      → collect_votes weight_at get_quorum (s ∷ xs) before ≡ some b
      → (v : Bool) × (vote_of weight_at get_quorum s ≡ some v)
        × (collect_votes weight_at get_quorum xs (cast_on s v before) ≡ some b)
  unfolding collect_votes
  collect_parts s xs before b h e =
      collect_cast s xs before b _ refl (sym (if_then s.enabled _ _ h) ∙ e)

  collect_votes-lookup :
      (xs : List TradingStrategy) (before b : Ballot) (n : String)
      → All (λ (s : TradingStrategy). s.enabled ≡ true) xs
      → All (λ (s : TradingStrategy). n ≢ s.name) xs
      → collect_votes weight_at get_quorum xs before ≡ some b
      → (lookup String-discrete n b.0 ≡ lookup String-discrete n before.0)
        × (lookup String-discrete n b.1 ≡ lookup String-discrete n before.1)
  unfolding collect_votes
  collect_votes-lookup [] before b n h d e = (
    ap (λ (r : Ballot). lookup String-discrete n r.0) (sym (some-injective _ _ e)),
    ap (λ (r : Ballot). lookup String-discrete n r.1) (sym (some-injective _ _ e)),
  )
  collect_votes-lookup (s ∷ xs) before b n h d e =
      let (v, cast_v, rest) = collect_parts s xs before b h.0 e in
      let (votes, weights) = collect_votes-lookup xs (cast_on s v before) b n h.1 d.1 rest in
      let other : s.name ≢ n = λ p. d.0 (sym p) in
      (
        votes
            ∙ lookup-insert String-discrete s.name n v before.0
            ∙ if_neg (String-discrete s.name n) other _ _,
        weights
            ∙ lookup-insert String-discrete s.name n (weight_at s) before.1
            ∙ if_neg (String-discrete s.name n) other _ _,
      )

  collect_votes-IsCounted :
      (xs : List TradingStrategy) (before b : Ballot)
      → All (λ (s : TradingStrategy). s.enabled ≡ true) xs
      → HaveNames xs
      → collect_votes weight_at get_quorum xs before ≡ some b
      → All (IsCounted b) xs
  collect_votes-IsCounted [] before b h d e = tt
  collect_votes-IsCounted (s ∷ xs) before b h d e =
      let (v, cast_v, rest) = collect_parts s xs before b h.0 e in
      let (votes, weights) = collect_votes-lookup xs (cast_on s v before) b s.name h.1 d.0 rest in
      (
        (
          votes ∙ lookup-insert_self String-discrete s.name v before.0 ∙ sym cast_v,
          weights ∙ lookup-insert_self String-discrete s.name (weight_at s) before.1,
        ),
        collect_votes-IsCounted xs (cast_on s v before) b h.1 d.1 rest,
      )

-- The eligible ones of strategies that do not conflict are enabled, and have different names.
eligible-All :
    (t : String) (s : TradingStrategy) (xs : List TradingStrategy)
    → is_eligible t s ≡ true
    → All (λ o. conflict o s ≡ none) xs
    → All (λ (o : TradingStrategy). s.name ≢ o.name) (eligible_strategies xs t)
eligible-All t s [] e h = tt
eligible-All t s (o ∷ xs) e h =
    if_cases (All (λ (o : TradingStrategy). s.name ≢ o.name)) (is_eligible t o)
      (λ k. (names_differ t o s h.0 k e, eligible-All t s xs e h.1))
      (λ k. eligible-All t s xs e h.1)

eligible-HaveNames :
    (t : String) (xs : List TradingStrategy)
    → AreCompatible xs
    → HaveNames (eligible_strategies xs t)
eligible-HaveNames t [] h = tt
eligible-HaveNames t (s ∷ xs) h =
    if_cases HaveNames (is_eligible t s)
      (λ k. (eligible-All t s xs k h.0, eligible-HaveNames t xs h.1))
      (λ k. eligible-HaveNames t xs h.1)

pub eligible_enabled :
    (t : String) (xs : List TradingStrategy)
    → All (λ (s : TradingStrategy). s.enabled ≡ true) (eligible_strategies xs t)
eligible_enabled t [] = tt
eligible_enabled t (s ∷ xs) =
    if_cases (All (λ (s : TradingStrategy). s.enabled ≡ true)) (is_eligible t s)
      (λ k. (and_left s.enabled _ k, eligible_enabled t xs)) (λ k. eligible_enabled t xs)

abbrev pub ballot_in : Result ConsensusDecision → Option Ballot
ballot_in (ok d) = some (d.votes, d.weights)
ballot_in (raised e) = none

pub decided_ballot :
    (action : TradeAction) (t : String) (factor : ℕ) (o : Option Ballot) (d : ConsensusDecision)
    → decided action t factor o ≡ ok d
    → o ≡ some (d.votes, d.weights)
decided_ballot action t factor none d e = ap ballot_in e
decided_ballot action t factor (some ballot) d e = ap ballot_in e

module _ (clock : Clock) (timestamp : ℕ) (get_quorum : TradingStrategy → Option Bool) where
  -- The vote and the weight of a strategy at the time of an evaluation stand in a decision.
  abbrev pub StandsIn : ConsensusDecision → TradingStrategy → Type 0
  StandsIn d =
      IsCounted (λ s. resolve_effective_weight clock s timestamp) get_quorum (d.votes, d.weights)

  decide-StandsIn :
      (action : TradeAction) (t : String) (factor : Option ConsensusFactor)
      (xs : List TradingStrategy) (d : ConsensusDecision)
      → All (λ (s : TradingStrategy). s.enabled ≡ true) xs
      → HaveNames xs
      → decide clock timestamp get_quorum action t factor xs ≡ ok d
      → All (StandsIn d) xs
  decide-StandsIn action t factor [] d h n e = tt
  decide-StandsIn action t none (s ∷ xs) d h n e = cc
  decide-StandsIn action t (some f) (s ∷ xs) d h n e =
      collect_votes-IsCounted _ get_quorum (s ∷ xs) ([], []) (d.votes, d.weights) h n
        (decided_ballot action t (factor_of action f)
          (ballot_of clock timestamp get_quorum (s ∷ xs)) d e)

  -- When an evaluation decides, every enabled strategy for the action and the ticker symbol has its own
  -- vote and its effective weight in the decision, under its name: none is lost or overwritten. This
  -- holds for a manager whose strategies do not conflict.
  pub evaluate-StandsIn :
      (action : TradeAction) (t : String) (m : ConsensusManager) (d : ConsensusDecision)
      → IsConsistent m
      → evaluate clock timestamp get_quorum action t m ≡ ok d
      → All (StandsIn d) (eligible_strategies (registered action m) t)
  unfolding evaluate
  evaluate-StandsIn action t m d h e =
      decide-StandsIn action t _ _ d (eligible_enabled t (registered action m))
        (eligible-HaveNames t _ (registered-AreCompatible action m.strategies h)) e
