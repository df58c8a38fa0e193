-- ===== src/Expressions/Evaluator.antt =====
-- src/core/expressions/expression_parser.py, `parse` and `_evaluate` with its cases. Python's
-- arithmetic, order and `str` on values are arguments, and so is the context: each gives a value or
-- raises an exception.
pub mod Safety
pub mod Typing
use ml_crypto_trading.Prelude.{
  zero, String, Bool, true, false, not, ◌&&◌, ◌||◌, ◌⊎◌, Option, none, some, List, [], ◌∷◌,
  if◌then◌else◌,
}
use ml_crypto_trading.Prelude.Int.{pos}
use ml_crypto_trading.Prelude.Text.{is_empty_text}
use ml_crypto_trading.Expressions.Syntax.{
  Value, null, boolean, integer, real, text, Operator, Comparison, eq, not_eq, other_comparison,
  BoolOperator, and_op, or_op, UnaryOperator, u_sub, not_op, other_unary, Node, constant, name,
  bin_op, compare, if_exp, bool_op, unary_op, call, other_node, Nodes, nil, cons, Comparators, end,
  comparator, function_name, extract_series_name, is_supported_operator,
}
use ml_crypto_trading.Expressions.Result.{
  Result, gives, fails, ◌>>=◌, ◌>>◌, require, lift, unsupported, not_simple_call, keyword_arguments,
  bad_syntax,
}
use ml_crypto_trading.Expressions.Validator.{is_in, is_rolling, is_blank, validate}

pub record Python : Type 0 where
  pub arithmetic : Operator → Value → Value → String ⊎ Value
  pub compares : Comparison → Value → Value → String ⊎ Bool
  pub negative : Value → String ⊎ Value
  pub str : Value → String

pub record ExpressionContext : Type 0 where
  pub resolve_variable : String → String ⊎ Value
  pub call_function : String → List Value → String ⊎ Value

-- `bool(v)`
abbrev pub truth : Value → Bool
truth null = false
truth (boolean b) = b
truth (integer (pos zero)) = false
truth (integer z) = true
truth (real r) = not (is_in r ("0.0" ∷ "-0.0" ∷ []))
truth (text s) = not (is_empty_text s)

-- `all(values)` and `any(values)`
abbrev pub combine : BoolOperator → List Value → Bool
combine and_op [] = true
combine and_op (v ∷ vs) = truth v && combine and_op vs
combine or_op [] = false
combine or_op (v ∷ vs) = truth v || combine or_op vs

abbrev pub is_null : Value → Bool
is_null null = true
is_null _ = false

-- The comparison where one side is None.
abbrev pub compare_null : Comparison → Bool → Bool
compare_null eq both = both
compare_null not_eq both = not both
compare_null _ both = false

abbrev pub kept_tree : Option Node → Result (Option Node)
kept_tree none = fails bad_syntax
kept_tree (some n) = gives (some n)

-- `ExpressionParser.__init__`: the tree that it keeps.
unfoldable pub create_parser : (String → Option Node) → String → Result (Option Node)
unfolding validate
create_parser parse_text expression =
    if is_blank expression
    then gives none
    else (validate parse_text expression >> kept_tree (parse_text expression))

module _ (python : Python) where
  open python use {arithmetic, compares, negative, str}

  abbrev compare_values : Comparison → Value → Value → Result Bool
  compare_values other_comparison l r = gives false
  compare_values op l r = lift (compares op l r)

  -- `_apply_comparison`
  unfoldable pub apply_comparison : Value → Comparison → Value → Result Bool
  apply_comparison l op r =
      if is_null l || is_null r
      then gives (compare_null op (is_null l && is_null r))
      else compare_values op l r

  -- The last step of `_evaluate_binop`, and that of `_evaluate_unaryop`.
  abbrev pub apply_operator : Operator → Value → Value → Result Value
  apply_operator op l r = require (is_supported_operator op) unsupported >> lift (arithmetic op l r)

  abbrev pub apply_unary : UnaryOperator → Value → Result Value
  apply_unary u_sub v = lift (negative v)
  apply_unary not_op v = gives (boolean (not (truth v)))
  apply_unary other_unary v = gives null

  -- The series of a rolling call: its name, or the text of its value.
  abbrev pub series_name : Option String → Result Value → Result String
  series_name (some s) value = gives s
  series_name none value = value >>= λ v. gives (str v)

  module _ (context : ExpressionContext) where
    open context use {resolve_variable, call_function}

    -- `_evaluate_call`, on the results for all arguments, for the series and for the other arguments.
    abbrev pub evaluate_call :
        Option String
        → Nodes
        → Bool
        → Result (List Value)
        → Result String
        → Result (List Value)
        → Result Value
    evaluate_call none args keywords all series rest = fails not_simple_call
    evaluate_call (some g) nil keywords all series rest =
        require (not keywords) keyword_arguments >> (all >>= λ vs. lift (call_function g vs))
    evaluate_call (some g) (cons n ns) keywords all series rest =
        require (not keywords) keyword_arguments
        >> (if is_rolling g
            then (series >>= λ s. rest >>= λ vs. lift (call_function g (text s ∷ vs)))
            else (all >>= λ vs. lift (call_function g vs)))

    -- `_evaluate`
    unfoldable mutual
      pub evaluate : Node → Result Value
      evaluate (constant v) = gives v
      evaluate (name x) = lift (resolve_variable x)
      evaluate (bin_op op l r) = evaluate l >>= λ a. evaluate r >>= λ b. apply_operator op a b
      evaluate (compare l cs) = evaluate l >>= λ a. evaluate_chain cs a >>= λ b. gives (boolean b)
      evaluate (if_exp t b o) =
          let body = evaluate b in
          let orelse = evaluate o in evaluate t >>= λ v. if truth v then body else orelse
      evaluate (bool_op op ns) = evaluate_all ns >>= λ vs. gives (boolean (combine op vs))
      evaluate (unary_op op n) = evaluate n >>= λ v. apply_unary op v
      evaluate (call f args keywords) =
          evaluate_call (function_name f) args keywords (evaluate_all args) (evaluate_series args)
            (evaluate_rest args)
      evaluate other_node = fails unsupported

      pub evaluate_all : Nodes → Result (List Value)
      evaluate_all nil = gives []
      evaluate_all (cons n ns) = evaluate n >>= λ v. evaluate_all ns >>= λ vs. gives (v ∷ vs)

      -- `node.args[1:]`, and the series in `node.args[0]`.
      pub evaluate_rest : Nodes → Result (List Value)
      evaluate_rest nil = gives []
      evaluate_rest (cons n ns) = evaluate_all ns

      pub evaluate_series : Nodes → Result String
      evaluate_series nil = gives String.[]
      evaluate_series (cons n ns) = series_name (extract_series_name n) (evaluate n)

      -- The loop of `_evaluate_compare`.
      pub evaluate_chain : Comparators → Value → Result Bool
      evaluate_chain end l = gives true
      evaluate_chain (comparator op n cs) l = evaluate n >>= λ r.
          let rest = evaluate_chain cs r in
          apply_comparison l op r >>= λ b. if b then rest else gives false

    -- `parse`, on the tree that the constructor keeps.
    unfoldable pub parse : Option Node → Result Value
    unfolding evaluate
    parse none = gives null
    parse (some n) = evaluate n
