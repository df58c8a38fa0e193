-- ===== src/Expressions/Syntax.antt =====
-- The trees of Python's `ast` as src/core/expressions/expression_parser.py takes them apart, and the
-- value types of src/core/expressions/schema.py. An operator or a node that the parser knows no use of
-- stands in one constructor; of keyword arguments only their presence is read.
use ml_crypto_trading.Prelude.{String, Bool, true, false, Option, none, some}
use ml_crypto_trading.Prelude.Int.{ℤ}

-- A float stands by its `repr`.
pub data Value : Type 0 where
  null : Value
  boolean : Bool → Value
  integer : ℤ → Value
  real : String → Value
  text : String → Value

pub data Operator : Type 0 where
  add mult sub div other_operator : Operator

pub data Comparison : Type 0 where
  gt lt gt_e lt_e eq not_eq other_comparison : Comparison

pub data BoolOperator : Type 0 where
  and_op or_op : BoolOperator

pub data UnaryOperator : Type 0 where
  u_sub not_op other_unary : UnaryOperator

mutual
  pub data Node : Type 0 where
    constant : Value → Node
    name : String → Node
    bin_op : Operator → Node → Node → Node
    compare : Node → Comparators → Node
    if_exp : Node → Node → Node → Node
    bool_op : BoolOperator → Nodes → Node
    unary_op : UnaryOperator → Node → Node
    call : Node → Nodes → Bool → Node
    other_node : Node

  pub data Nodes : Type 0 where
    nil : Nodes
    cons : Node → Nodes → Nodes

  -- `zip(node.ops, node.comparators)`
  pub data Comparators : Type 0 where
    end : Comparators
    comparator : Comparison → Node → Comparators → Comparators

pub data ExpressionValueType : Type 0 where
  number_type boolean_type string_type series_type any_type : ExpressionValueType

-- `isinstance(node.func, ast.Name)`
abbrev pub function_name : Node → Option String
function_name (name f) = some f
function_name _ = none

-- `_extract_series_name`
abbrev pub extract_series_name : Node → Option String
extract_series_name (name x) = some x
extract_series_name (constant (text x)) = some x
extract_series_name _ = none

abbrev pub is_supported_operator : Operator → Bool
is_supported_operator other_operator = false
is_supported_operator _ = true

abbrev pub is_supported_comparison : Comparison → Bool
is_supported_comparison other_comparison = false
is_supported_comparison _ = true

abbrev pub is_supported_unary : UnaryOperator → Bool
is_supported_unary other_unary = false
is_supported_unary _ = true

-- `_infer_node_type`
unfoldable pub infer_node_type : Node → ExpressionValueType
infer_node_type (compare l cs) = boolean_type
infer_node_type (bool_op o ns) = boolean_type
infer_node_type (unary_op not_op n) = boolean_type
infer_node_type (constant (boolean b)) = boolean_type
infer_node_type (constant (text s)) = string_type
infer_node_type (if_exp test body orelse) = infer_node_type body
infer_node_type _ = number_type
