-- ===== src/Expressions/Evaluator/Safety.antt =====
-- src/core/expressions/expression_parser.py: the exceptions of an evaluation after validation.
use mathlib.Core.Path.{subst}
use ml_crypto_trading.Prelude.{
  String, Bool, true, false, ◌||◌, ◌≡◌, refl, sym, ◌∙◌, inl, inr, Bool-cases, Option, none, some,
  List, ◌∷◌, if◌then◌else◌, if_intro, leb,
}
use ml_crypto_trading.Prelude.Text.{len}
use ml_crypto_trading.Expressions.Syntax.{
  Value, text, Comparison, gt, lt, gt_e, lt_e, eq, not_eq, other_comparison, UnaryOperator, u_sub,
  not_op, other_unary, Node, constant, name, bin_op, compare, if_exp, bool_op, unary_op, call,
  other_node, Nodes, nil, cons, Comparators, end, comparator, function_name, extract_series_name,
  is_supported_operator,
}
use ml_crypto_trading.Expressions.Result.{
  Result, gives, fails, ◌>>◌, require, is_ok, rejects, is_ok-require, is_ok-parts, rejects->>=,
  rejects-lift, unsupported, too_long,
}
use ml_crypto_trading.Expressions.Validator.{
  is_rolling, validate_call, validate_node, validate_nodes, validate_comparators, validate_tree,
  validate, is_blank, max_formula_length,
}
use ml_crypto_trading.Expressions.Evaluator.{
  Python, ExpressionContext, truth, is_null, compare_values, apply_comparison, create_parser,
  kept_tree, apply_unary, series_name, evaluate_call, evaluate, evaluate_all, evaluate_rest,
  evaluate_series, evaluate_chain, parse,
}

-- A requirement that is met does not reject what follows it.
rejects-require {ℓ} :
    {A : Type ℓ} (b : Bool) (m : Result A)
    → b ≡ true
    → rejects m ≡ false
    → rejects (require b unsupported >> m) ≡ false
rejects-require b m h k = rw h k

-- The arguments of a valid call are valid.
validate_call-args :
    (f : Option String) (args : Nodes) (keywords : Bool) (rest : Result (Unit {0}))
    → is_ok (validate_call f args keywords rest) ≡ true
    → is_ok rest ≡ true
validate_call-args none args keywords rest h = cc
validate_call-args (some g) args keywords rest h = (is_ok-parts _ rest h).1

-- What the constructor keeps is valid.
abbrev Kept : Result (Option Node) → Type 0
Kept (gives (some n)) = is_ok (validate_node n) ≡ true
Kept _ = Unit

node-Kept : (n : Node) (r : Result (Unit {0})) → validate_node n ≡ r → Kept (r >> gives (some n))
node-Kept n (gives a) h = rw h refl
node-Kept n (fails e) h = tt

tree-Kept :
    (short : Bool) (tree : Option Node)
    → Kept ((if short then validate_tree tree else fails too_long) >> kept_tree tree)
tree-Kept false tree = tt
tree-Kept true none = tt
tree-Kept true (some n) = node-Kept n (validate_node n) refl

create_parser-Kept :
    (parse_text : String → Option Node) (e : String) → Kept (create_parser parse_text e)
unfolding create_parser validate
create_parser-Kept parse_text e = elim (Bool-cases (is_blank e)) [
  | inl blank ↦ rw blank tt
  | inr filled ↦ rw filled (tree-Kept (leb (len e) max_formula_length) (parse_text e))
]

module _ (python : Python) where
  compare_values-accepts :
      (op : Comparison) (l r : Value) → rejects (compare_values python op l r) ≡ false
  compare_values-accepts other_comparison l r = refl
  compare_values-accepts gt l r = rejects-lift (python.compares gt l r)
  compare_values-accepts lt l r = rejects-lift (python.compares lt l r)
  compare_values-accepts gt_e l r = rejects-lift (python.compares gt_e l r)
  compare_values-accepts lt_e l r = rejects-lift (python.compares lt_e l r)
  compare_values-accepts eq l r = rejects-lift (python.compares eq l r)
  compare_values-accepts not_eq l r = rejects-lift (python.compares not_eq l r)

  apply_comparison-accepts :
      (l r : Value) (op : Comparison) → rejects (apply_comparison python l op r) ≡ false
  unfolding apply_comparison
  apply_comparison-accepts l r op =
      if_intro (λ (m : Result Bool). rejects m ≡ false) (is_null l || is_null r) refl
        (compare_values-accepts op l r)

  apply_unary-accepts : (op : UnaryOperator) (v : Value) → rejects (apply_unary python op v) ≡ false
  apply_unary-accepts u_sub v = rejects-lift (python.negative v)
  apply_unary-accepts not_op v = refl
  apply_unary-accepts other_unary v = refl

  series_name-accepts :
      (s : Option String) (value : Result Value)
      → rejects value ≡ false
      → rejects (series_name python s value) ≡ false
  series_name-accepts (some s) value h = refl
  series_name-accepts none value h = rejects->>= value _ h (λ v. refl)

  module _ (context : ExpressionContext) where
    evaluate_call-accepts :
        (f : Option String) (args : Nodes) (keywords : Bool) (all : Result (List Value))
        (series : Result String) (rest : Result (List Value))
        → is_ok (validate_call f args keywords (validate_nodes args)) ≡ true
        → rejects all ≡ false
        → rejects series ≡ false
        → rejects rest ≡ false
        → rejects (evaluate_call python context f args keywords all series rest) ≡ false
    evaluate_call-accepts none args keywords all series rest v a s r = cc
    evaluate_call-accepts (some g) args true all series rest v a s r = cc
    evaluate_call-accepts (some g) nil false all series rest v a s r =
        rejects->>= all _ a (λ vs. rejects-lift (context.call_function g vs))
    evaluate_call-accepts (some g) (cons n ns) false all series rest v a s r =
        if_intro (λ (m : Result Value). rejects m ≡ false) (is_rolling g)
          (rejects->>= series _ s (λ x.
            rejects->>= rest _ r (λ vs. rejects-lift (context.call_function g (text x ∷ vs)))))
          (rejects->>= all _ a (λ vs. rejects-lift (context.call_function g vs)))

    mutual
      unfolding validate_node evaluate

      accepts :
          (n : Node) → is_ok (validate_node n) ≡ true → rejects (evaluate python context n) ≡ false
      accepts (constant v) h = refl
      accepts (name x) h = rejects-lift (context.resolve_variable x)
      accepts (bin_op op l r) h =
          let (hol, hr) = is_ok-parts _ (validate_node r) h in
          let (ho, hl) = is_ok-parts _ (validate_node l) hol in
          rejects->>= (evaluate python context l) _ (accepts l hl) (λ a.
            rejects->>= (evaluate python context r) _ (accepts r hr) (λ b.
              rejects-require (is_supported_operator op) _ (sym (is_ok-require _ _) ∙ ho)
                (rejects-lift (python.arithmetic op a b))))
      accepts (compare l cs) h =
          let (hl, hc) = is_ok-parts _ (validate_comparators cs) h in
          rejects->>= (evaluate python context l) _ (accepts l hl) (λ a.
            rejects->>= (evaluate_chain python context cs a) _ (chain_accepts cs a hc) (λ b. refl))
      accepts (if_exp t b o) h =
          let (htb, ho) = is_ok-parts _ (validate_node o) h in
          let (ht, hb) = is_ok-parts _ (validate_node b) htb in
          rejects->>= (evaluate python context t) _ (accepts t ht) (λ v.
            if_intro (λ (m : Result Value). rejects m ≡ false) (truth v) (accepts b hb)
              (accepts o ho))
      accepts (bool_op op ns) h =
          rejects->>= (evaluate_all python context ns) _ (all_accepts ns h) (λ vs. refl)
      accepts (unary_op op n) h =
          let (hop, hn) = is_ok-parts _ (validate_node n) h in
          rejects->>= (evaluate python context n) _ (accepts n hn) (λ v. apply_unary-accepts op v)
      accepts (call f args keywords) h =
          let hargs = validate_call-args (function_name f) args keywords (validate_nodes args) h in
          evaluate_call-accepts (function_name f) args keywords _ _ _ h (all_accepts args hargs)
            (series_accepts args hargs) (rest_accepts args hargs)
      accepts other_node h = cc

      all_accepts :
          (ns : Nodes)
          → is_ok (validate_nodes ns) ≡ true
          → rejects (evaluate_all python context ns) ≡ false
      all_accepts nil h = refl
      all_accepts (cons n ns) h =
          let (hn, hns) = is_ok-parts _ (validate_nodes ns) h in
          rejects->>= (evaluate python context n) _ (accepts n hn)
            (λ v. rejects->>= (evaluate_all python context ns) _ (all_accepts ns hns) (λ vs. refl))

      rest_accepts :
          (ns : Nodes)
          → is_ok (validate_nodes ns) ≡ true
          → rejects (evaluate_rest python context ns) ≡ false
      rest_accepts nil h = refl
      rest_accepts (cons n ns) h =
          all_accepts ns (is_ok-parts (validate_node n) (validate_nodes ns) h).1

      series_accepts :
          (ns : Nodes)
          → is_ok (validate_nodes ns) ≡ true
          → rejects (evaluate_series python context ns) ≡ false
      series_accepts nil h = refl
      series_accepts (cons n ns) h =
          series_name-accepts (extract_series_name n) _
            (accepts n (is_ok-parts (validate_node n) (validate_nodes ns) h).0)

      chain_accepts :
          (cs : Comparators) (l : Value)
          → is_ok (validate_comparators cs) ≡ true
          → rejects (evaluate_chain python context cs l) ≡ false
      chain_accepts end l h = refl
      chain_accepts (comparator op n cs) l h =
          let (hon, hcs) = is_ok-parts _ (validate_comparators cs) h in
          let (ho, hn) = is_ok-parts _ (validate_node n) hon in
          rejects->>= (evaluate python context n) _ (accepts n hn) (λ r.
            rejects->>= (apply_comparison python l op r) _ (apply_comparison-accepts l r op) (λ b.
              if_intro (λ (m : Result Bool). rejects m ≡ false) b (chain_accepts cs r hcs) refl))

    -- A formula that the constructor accepted evaluates, in any context, to a value or to an exception
    -- of Python's operators or of the context: the parser raises no exception of its own any more. This
    -- holds whatever Python's parser makes of the text.
    pub parse-create_parser :
        (parse_text : String → Option Node) (expression : String) (tree : Option Node)
        → create_parser parse_text expression ≡ gives tree
        → rejects (parse python context tree) ≡ false
    unfolding parse
    parse-create_parser parse_text e none h = refl
    parse-create_parser parse_text e (some n) h =
        accepts n (subst Kept h (create_parser-Kept parse_text e))
