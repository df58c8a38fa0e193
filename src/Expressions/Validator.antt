-- ===== src/Expressions/Validator.antt =====
-- src/core/expressions/expression_parser.py, `validate`, `_validate_node` and
-- `_validate_rolling_call_strict`. Python's parser is the argument `parse_text`: the tree of an
-- expression, or none for a SyntaxError.
use ml_crypto_trading.Prelude.{
  ℕ, String, Bool, true, false, not, ◌||◌, Option, none, some, List, [], ◌∷◌, any, holds, leb,
  if◌then◌else◌,
}
use ml_crypto_trading.Prelude.Int.{leb_ℤ}
use ml_crypto_trading.Prelude.Decimal.{zero_dec}
use ml_crypto_trading.Prelude.Text.{String-discrete, len, strip, is_empty_text}
use ml_crypto_trading.Expressions.Syntax.{
  integer, Node, constant, name, bin_op, compare, if_exp, bool_op, unary_op, call, other_node,
  Nodes, nil, cons, Comparators, end, comparator, function_name, extract_series_name,
  is_supported_operator, is_supported_comparison, is_supported_unary,
}
use ml_crypto_trading.Expressions.Result.{
  Result, gives, fails, ◌>>◌, require, unsupported, not_simple_call, keyword_arguments,
  rolling_arity, rolling_series, rolling_period, too_long, bad_syntax,
}

-- `s in texts`
abbrev pub is_in : String → List String → Bool
is_in s texts = any (λ t. holds (String-discrete t s)) texts

-- `_MAX_FORMULA_LENGTH` and `_VALID_ROLLING_SERIES`
abbrev pub max_formula_length : ℕ
max_formula_length = 1000

abbrev pub valid_rolling_series : List String
valid_rolling_series = "high" ∷ "low" ∷ "close" ∷ "open" ∷ "volume" ∷ []

-- `func_name in ("highest", "lowest")`
unfoldable pub is_rolling : String → Bool
is_rolling f = is_in f ("highest" ∷ "lowest" ∷ [])

-- `series_name is None or series_name not in cls._VALID_ROLLING_SERIES`, negated.
abbrev pub is_valid_series : Option String → Bool
is_valid_series none = false
is_valid_series (some s) = is_in s valid_rolling_series

-- A period that is written as a constant is a positive integer; any other is not looked at.
abbrev pub is_valid_period : Node → Bool
is_valid_period (constant (integer z)) = not (leb_ℤ z zero_dec)
is_valid_period (constant v) = false
is_valid_period _ = true

-- `_validate_rolling_call_strict`
abbrev pub validate_rolling_call_strict : Nodes → Result (Unit {0})
validate_rolling_call_strict (cons a (cons b nil)) =
    require (is_valid_series (extract_series_name a)) rolling_series
    >> require (is_valid_period b) rolling_period
validate_rolling_call_strict _ = fails rolling_arity

-- The case of a call; `rest` is the visit of its arguments.
abbrev pub validate_call : Option String → Nodes → Bool → Result (Unit {0}) → Result (Unit {0})
validate_call none args keywords rest = fails not_simple_call
validate_call (some g) args keywords rest =
    require (not keywords) keyword_arguments
    >> (if is_rolling g then validate_rolling_call_strict args else gives tt)
    >> rest

-- `_validate_node`
unfoldable mutual
  pub validate_node : Node → Result (Unit {0})
  validate_node (constant v) = gives tt
  validate_node (name x) = gives tt
  validate_node (bin_op o l r) =
      require (is_supported_operator o) unsupported >> validate_node l >> validate_node r
  validate_node (compare l cs) = validate_node l >> validate_comparators cs
  validate_node (if_exp t b o) = validate_node t >> validate_node b >> validate_node o
  validate_node (bool_op o ns) = validate_nodes ns
  validate_node (unary_op o n) = require (is_supported_unary o) unsupported >> validate_node n
  validate_node (call f args keywords) =
      validate_call (function_name f) args keywords (validate_nodes args)
  validate_node other_node = fails unsupported

  pub validate_nodes : Nodes → Result (Unit {0})
  validate_nodes nil = gives tt
  validate_nodes (cons n ns) = validate_node n >> validate_nodes ns

  pub validate_comparators : Comparators → Result (Unit {0})
  validate_comparators end = gives tt
  validate_comparators (comparator o n cs) =
      require (is_supported_comparison o) unsupported >> validate_node n >> validate_comparators cs

-- `not expression or not expression.strip()`
abbrev pub is_blank : String → Bool
is_blank e = is_empty_text e || is_empty_text (strip e)

abbrev pub validate_tree : Option Node → Result (Unit {0})
validate_tree none = fails bad_syntax
validate_tree (some n) = validate_node n

-- `validate`
unfoldable pub validate : (String → Option Node) → String → Result (Unit {0})
unfolding validate_node
validate parse_text expression =
    if is_blank expression
    then gives tt
    else if leb (len expression) max_formula_length
    then validate_tree (parse_text expression)
    else fails too_long
