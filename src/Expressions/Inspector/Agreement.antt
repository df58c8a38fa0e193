-- ===== src/Expressions/Inspector/Agreement.antt =====
-- src/core/expressions/expression_parser.py: the diagnostics of `inspect_semantics` against the
-- exceptions of `validate`.
use ml_crypto_trading.Prelude.{
  String, Bool, true, false, ◌&&◌, Option, none, some, List, [], ◌∷◌, ◌++◌, ◌≡◌, refl, arith,
  Bool-cases, Option-cases, inl, inr, leb, if◌then◌else◌,
}
use ml_crypto_trading.Prelude.Text.{len, strip}
use ml_crypto_trading.Expressions.Syntax.{
  Node, constant, name, bin_op, compare, if_exp, bool_op, unary_op, call, other_node, Nodes, nil,
  cons, Comparators, end, comparator, function_name, extract_series_name,
}
use ml_crypto_trading.Expressions.Result.{Result, gives, is_ok, is_ok->>, is_ok-require}
use ml_crypto_trading.Expressions.Validator.{
  max_formula_length, is_rolling, is_valid_series, validate_rolling_call_strict, validate_call,
  validate_node, validate_nodes, validate_comparators, is_blank, validate_tree, validate,
}
use ml_crypto_trading.Expressions.Inspector.{
  Diagnostic, Findings, ◌<>◌, check, is_allowed, validate_rolling_call, first_name, collect_call,
  collect, collect_all, collect_rest, collect_comparators, is_clean, inspect_tree,
  inspect_semantics,
}

abbrev is_clean_of : Findings → Bool
is_clean_of f = is_clean f.diagnostics

is_clean-append : (xs ys : List Diagnostic) → is_clean (xs ++ ys) ≡ (is_clean xs && is_clean ys)
is_clean-append [] ys = refl
is_clean-append (x ∷ xs) ys = refl

is_clean-<> : (a b : Findings) → is_clean_of (a <> b) ≡ (is_clean_of a && is_clean_of b)
unfolding ◌<>◌
is_clean-<> a b = is_clean-append a.diagnostics b.diagnostics

is_clean-check : (b : Bool) (d : Diagnostic) → is_clean_of (check b d) ≡ b
is_clean-check true d = refl
is_clean-check false d = refl

rolling_lem :
    (args : Nodes)
    → is_clean_of (validate_rolling_call args) ≡ is_ok (validate_rolling_call_strict args)
unfolding validate_rolling_call
rolling_lem nil = refl
rolling_lem (cons a nil) = refl
rolling_lem (cons a (cons b nil)) = simp (is_clean-<>, is_clean-check, is_ok->>, is_ok-require)
rolling_lem (cons a (cons b (cons c ns))) = refl

abbrev validate_rest : Nodes → Result (Unit {0})
validate_rest nil = gives tt
validate_rest (cons n ns) = validate_nodes ns

-- The series of a valid rolling call is a name or a text, which always validates.
series_validates :
    (n : Node) → is_valid_series (extract_series_name n) ≡ true → validate_node n ≡ gives tt
unfolding validate_node
series_validates (constant v) h = refl
series_validates (name x) h = refl
series_validates (bin_op o l r) h = cc
series_validates (compare l cs) h = cc
series_validates (if_exp t b o) h = cc
series_validates (bool_op o ns) h = cc
series_validates (unary_op o n) h = cc
series_validates (call f args k) h = cc
series_validates other_node h = cc

strict_first :
    (args : Nodes)
    → (is_ok (validate_rolling_call_strict args) && is_ok (validate_nodes args))
      ≡ (is_ok (validate_rolling_call_strict args) && is_ok (validate_rest args))
unfolding validate_node
strict_first nil = refl
strict_first (cons a nil) = refl
strict_first (cons a (cons b nil)) = elim (Bool-cases (is_valid_series (extract_series_name a))) [
  | inl valid ↦ rw (series_validates a valid) refl
  | inr other ↦ rw other refl
]
strict_first (cons a (cons b (cons c ns))) = refl

is_clean-first_name : (args : Nodes) → is_clean_of (first_name args) ≡ true
is_clean-first_name nil = refl
is_clean-first_name (cons (name x) ns) = refl
is_clean-first_name (cons n ns) = refl

ruleset verdicts = (is_clean-<>, is_clean-check, is_ok->>, is_ok-require)

module _ (variables functions : Option (List String)) where
  abbrev call_allowed : Option String → Bool → Bool → Bool
  call_allowed none all rest = true
  call_allowed (some g) all rest = is_allowed functions g && (if is_rolling g then rest else all)

  -- Every name that is looked up is allowed. The series of a rolling call is not looked up.
  unfoldable mutual
    pub uses_allowed : Node → Bool
    uses_allowed (constant v) = true
    uses_allowed (name x) = is_allowed variables x
    uses_allowed (bin_op o l r) = uses_allowed l && uses_allowed r
    uses_allowed (compare l cs) = uses_allowed l && comparators_allowed cs
    uses_allowed (if_exp t b o) = uses_allowed t && (uses_allowed b && uses_allowed o)
    uses_allowed (bool_op o ns) = all_allowed ns
    uses_allowed (unary_op o n) = uses_allowed n
    uses_allowed (call f args keywords) =
        call_allowed (function_name f) (all_allowed args) (rest_allowed args)
    uses_allowed other_node = true

    pub all_allowed : Nodes → Bool
    all_allowed nil = true
    all_allowed (cons n ns) = uses_allowed n && all_allowed ns

    pub rest_allowed : Nodes → Bool
    rest_allowed nil = true
    rest_allowed (cons n ns) = all_allowed ns

    pub comparators_allowed : Comparators → Bool
    comparators_allowed end = true
    comparators_allowed (comparator o n cs) = uses_allowed n && comparators_allowed cs

  call_lem :
      (g : String) (args : Nodes) (k : Bool) (all rest : Findings) (all_ok rest_ok : Bool)
      → is_clean_of all ≡ (is_ok (validate_nodes args) && all_ok)
      → is_clean_of rest ≡ (is_ok (validate_rest args) && rest_ok)
      → is_clean_of (collect_call variables functions (some g) args k all rest) ≡ (
          is_ok (validate_call (some g) args k (validate_nodes args))
          && (is_allowed functions g && (if is_rolling g then rest_ok else all_ok)))
  call_lem g args k all rest all_ok rest_ok ha hr = elim (Bool-cases (is_rolling g)) [
    | inl rolling ↦
        rw rolling (
          simp (verdicts, rolling_lem, is_clean-first_name, hr) (ground (arith, strict_first args)))
    | inr plain ↦ rw plain (simp (verdicts, ha) (ground arith))
  ]

  mutual
    unfolding collect validate_node uses_allowed

    collect_lem :
        (n : Node)
        → is_clean_of (collect variables functions n) ≡ (is_ok (validate_node n) && uses_allowed n)
    collect_lem (constant v) = refl
    collect_lem (name x) = simp verdicts
    collect_lem (bin_op o l r) = simp (verdicts, collect_lem l, collect_lem r) (ground arith)
    collect_lem (compare l cs) =
        simp (verdicts, collect_lem l, collect_comparators_lem cs) (ground arith)
    collect_lem (if_exp t b o) =
        simp (verdicts, collect_lem t, collect_lem b, collect_lem o) (ground arith)
    collect_lem (bool_op o ns) = collect_all_lem ns
    collect_lem (unary_op o n) = simp (verdicts, collect_lem n) (ground arith)
    collect_lem (call f args k) = elim (Option-cases (function_name f)) [
      | inl complex ↦ rw complex refl
      | inr (g, simple) ↦
          rw simple (call_lem g args k _ _ _ _ (collect_all_lem args) (collect_rest_lem args))
    ]
    collect_lem other_node = refl

    collect_all_lem :
        (ns : Nodes)
        → is_clean_of (collect_all variables functions ns)
          ≡ (is_ok (validate_nodes ns) && all_allowed ns)
    collect_all_lem nil = refl
    collect_all_lem (cons n ns) = simp (verdicts, collect_lem n, collect_all_lem ns) (ground arith)

    collect_rest_lem :
        (ns : Nodes)
        → is_clean_of (collect_rest variables functions ns)
          ≡ (is_ok (validate_rest ns) && rest_allowed ns)
    collect_rest_lem nil = refl
    collect_rest_lem (cons n ns) = collect_all_lem ns

    collect_comparators_lem :
        (cs : Comparators)
        → is_clean_of (collect_comparators variables functions cs)
          ≡ (is_ok (validate_comparators cs) && comparators_allowed cs)
    collect_comparators_lem end = refl
    collect_comparators_lem (comparator o n cs) =
        simp (verdicts, collect_lem n, collect_comparators_lem cs) (ground arith)

  abbrev tree_allowed : Option Node → Bool
  tree_allowed none = true
  tree_allowed (some n) = uses_allowed n

  -- Every name that a formula looks up is allowed; a blank formula and one with a syntax error look up
  -- none.
  abbrev pub formula_allowed : (String → Option Node) → String → Bool
  formula_allowed parse_text e = if is_blank e then true else tree_allowed (parse_text e)

  inspect_tree_lem :
      (tree : Option Node)
      → (inspect_tree variables functions tree).is_valid
        ≡ (is_ok (validate_tree tree) && tree_allowed tree)
  inspect_tree_lem none = refl
  inspect_tree_lem (some n) = collect_lem n

  -- For a formula with no white space around it, the inspection finds it valid exactly if `validate`
  -- accepts it and every variable and function that it looks up is allowed. This holds whatever
  -- Python's parser makes of the text.
  pub inspect_semantics_lem :
      (parse_text : String → Option Node) (e : String)
      → strip e ≡ e
      → (inspect_semantics parse_text variables functions e).is_valid
        ≡ (is_ok (validate parse_text e) && formula_allowed parse_text e)
  unfolding inspect_semantics validate
  inspect_semantics_lem parse_text e h = elim (Bool-cases (is_blank e)) [
    | inl blank ↦ rw blank refl
    | inr filled ↦ elim (Bool-cases (leb (len e) max_formula_length)) [
      | inl short ↦ rw (filled, h, short) (inspect_tree_lem (parse_text e))
      | inr long ↦ rw (filled, h, long) refl
    ]
  ]
