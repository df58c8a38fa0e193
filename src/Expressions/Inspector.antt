-- ===== src/Expressions/Inspector.antt =====
-- src/core/expressions/expression_parser.py, `inspect_semantics`, `_collect_and_validate_nodes`,
-- `_validate_rolling_call` and `_infer_node_type`. A diagnostic is its kind; its message and its place
-- in the text are left out. The sets of referenced names are lists, in the order of the visits.
pub mod Agreement
use ml_crypto_trading.Prelude.{
  String, Bool, true, false, not, Option, none, some, List, [], ◌∷◌, ◌++◌, leb, if◌then◌else◌,
}
use ml_crypto_trading.Prelude.Text.{len, strip}
use ml_crypto_trading.Expressions.Syntax.{
  Node, constant, name, bin_op, compare, if_exp, bool_op, unary_op, call, other_node, Nodes, nil,
  cons, Comparators, end, comparator, ExpressionValueType, function_name, extract_series_name,
  is_supported_operator, is_supported_comparison, is_supported_unary, infer_node_type,
}
use ml_crypto_trading.Expressions.Validator.{
  is_in, max_formula_length, is_rolling, is_valid_series, is_valid_period, is_blank,
}

pub data Diagnostic : Type 0 where
  too_long syntax_error : Diagnostic
  unknown_variable unknown_function : String → Diagnostic
  not_simple_call keyword_arguments unsupported : Diagnostic
  rolling_arity rolling_series rolling_period : Diagnostic

-- What the visits add to the list and the two sets.
pub record Findings : Type 0 where
  pub diagnostics : List Diagnostic
  pub referenced_variables : List String
  pub referenced_functions : List String

abbrev pub nothing : Findings
nothing = record { diagnostics = []; referenced_variables = []; referenced_functions = [] }

infixr 65 ◌<>◌
unfoldable pub ◌<>◌ : Findings → Findings → Findings
a <> b = record {
  diagnostics = a.diagnostics ++ b.diagnostics;
  referenced_variables = a.referenced_variables ++ b.referenced_variables;
  referenced_functions = a.referenced_functions ++ b.referenced_functions;
}

-- A diagnostic unless the test holds.
abbrev pub check : Bool → Diagnostic → Findings
check b d = if b then nothing else record nothing { diagnostics = d ∷ [] }

-- `allowed is None or s in allowed`
abbrev pub is_allowed : Option (List String) → String → Bool
is_allowed none s = true
is_allowed (some texts) s = is_in s texts

abbrev variable : String → Findings
variable x = record nothing { referenced_variables = x ∷ [] }

abbrev function : String → Findings
function f = record nothing { referenced_functions = f ∷ [] }

-- `_validate_rolling_call`
unfoldable pub validate_rolling_call : Nodes → Findings
validate_rolling_call (cons a (cons b nil)) =
    check (is_valid_series (extract_series_name a)) rolling_series
    <> check (is_valid_period b) rolling_period
validate_rolling_call _ = record nothing { diagnostics = rolling_arity ∷ [] }

-- `if node.args and isinstance(node.args[0], ast.Name)`
abbrev first_name : Nodes → Findings
first_name (cons (name x) ns) = variable x
first_name _ = nothing

module _ (allowed_variables allowed_functions : Option (List String)) where
  -- The case of a call; `all` and `rest` come from the visits of all arguments and of all but the first.
  abbrev pub collect_call : Option String → Nodes → Bool → Findings → Findings → Findings
  collect_call none args keywords all rest = record nothing { diagnostics = not_simple_call ∷ [] }
  collect_call (some g) args keywords all rest =
      check (not keywords) keyword_arguments
      <> (function g
          <> (check (is_allowed allowed_functions g) (unknown_function g)
              <> (if is_rolling g
                  then validate_rolling_call args <> (first_name args <> rest)
                  else all)))

  -- `_collect_and_validate_nodes`; `collect_rest` is the loop over `node.args[1:]`.
  unfoldable mutual
    pub collect : Node → Findings
    collect (constant v) = nothing
    collect (name x) = variable x <> check (is_allowed allowed_variables x) (unknown_variable x)
    collect (call f args keywords) =
        collect_call (function_name f) args keywords (collect_all args) (collect_rest args)
    collect (bin_op o l r) = check (is_supported_operator o) unsupported <> (collect l <> collect r)
    collect (compare l cs) = collect l <> collect_comparators cs
    collect (if_exp t b o) = collect t <> (collect b <> collect o)
    collect (bool_op o ns) = collect_all ns
    collect (unary_op o n) = check (is_supported_unary o) unsupported <> collect n
    collect other_node = record nothing { diagnostics = unsupported ∷ [] }

    pub collect_all : Nodes → Findings
    collect_all nil = nothing
    collect_all (cons n ns) = collect n <> collect_all ns

    pub collect_rest : Nodes → Findings
    collect_rest nil = nothing
    collect_rest (cons n ns) = collect_all ns

    pub collect_comparators : Comparators → Findings
    collect_comparators end = nothing
    collect_comparators (comparator o n cs) =
        check (is_supported_comparison o) unsupported <> (collect n <> collect_comparators cs)

pub record ExpressionValidationResponse : Type 0 where
  pub is_valid : Bool
  pub inferred_type : Option ExpressionValueType
  pub findings : Findings

abbrev pub is_clean : List Diagnostic → Bool
is_clean [] = true
is_clean (d ∷ ds) = false

abbrev pub failed : Diagnostic → ExpressionValidationResponse
failed d = record {
  is_valid = false;
  inferred_type = none;
  findings = record nothing { diagnostics = d ∷ [] };
}

abbrev pub inspect_tree :
    Option (List String) → Option (List String) → Option Node → ExpressionValidationResponse
inspect_tree variables functions none = failed syntax_error
inspect_tree variables functions (some n) =
    let found = collect variables functions n in
    record {
      is_valid = is_clean found.diagnostics;
      inferred_type = some (infer_node_type n);
      findings = found;
    }

-- `inspect_semantics`
unfoldable pub inspect_semantics :
    (String → Option Node)
    → Option (List String)
    → Option (List String)
    → String
    → ExpressionValidationResponse
unfolding collect infer_node_type
inspect_semantics parse_text variables functions expression =
    if is_blank expression
    then record { is_valid = true; inferred_type = none; findings = nothing }
    else if leb (len (strip expression)) max_formula_length
    then inspect_tree variables functions (parse_text (strip expression))
    else failed too_long
