-- ===== src/Tests/ExpressionsTests.antt =====
-- The theorems about src/core/expressions at concrete inputs: the formula `highest(close, 2) > 1`, and
-- a conditional over it.
use ml_crypto_trading.Prelude.{
  String, true, false, ◌≡◌, refl, Option, some, List, [], ◌∷◌, ◌++◌, arith, inl, inr, ◌&&◌,
}
use ml_crypto_trading.Prelude.Int.{ℤ, pos}
use ml_crypto_trading.Prelude.Text.{strip, String-discrete, decide_by}
use ml_crypto_trading.Expressions.Syntax.{
  boolean, integer, Node, constant, name, compare, if_exp, call, nil, cons, end, comparator, gt,
  infer_node_type,
}
use ml_crypto_trading.Expressions.Result.{gives, is_ok, rejects}
use ml_crypto_trading.Expressions.Validator.{validate, validate_node, is_rolling}
use ml_crypto_trading.Expressions.Inspector.{inspect_semantics}
use ml_crypto_trading.Expressions.Inspector.Agreement.{formula_allowed, inspect_semantics_lem}
use ml_crypto_trading.Expressions.Evaluator.{
  Python, ExpressionContext, create_parser, evaluate, parse, apply_comparison,
}
use ml_crypto_trading.Expressions.Evaluator.Safety.{parse-create_parser}
use ml_crypto_trading.Expressions.Evaluator.Typing.{HasType, evaluate-HasType}
use ml_crypto_trading.Expressions.Windows.{
  Candle, MarketData, find_extractor, extractors, highest, lowest,
}
use ml_crypto_trading.Expressions.Windows.Bounds.{
  AreWithin, IsAmong, highest-is_active_candle, highest-lowest,
}

abbrev formula : String
formula = "highest(close,2)>1"

abbrev tree : Node
tree =
    compare
      (call (name "highest") (cons (name "close") (cons (constant (integer (pos 2))) nil)) false)
      (comparator gt (constant (integer (pos 1))) end)

abbrev parse_text : String → Option Node
parse_text s = some tree

abbrev variables : Option (List String)
variables = some ("close" ∷ [])

abbrev functions : Option (List String)
functions = some ("highest" ∷ [])

abbrev python : Python
python = record {
  arithmetic = λ op a b. inr a;
  compares = λ op a b. inr true;
  negative = λ v. inr v;
  str = λ v. "text";
}

abbrev context : ExpressionContext
context = record {
  resolve_variable = λ x. inl "no such variable";
  call_function = λ f vs. inr (integer (pos 3));
}

inspect_semantics_lem_example :
    (inspect_semantics parse_text variables functions formula).is_valid ≡ (
      is_ok (validate parse_text formula) && formula_allowed variables functions parse_text formula)
unfolding strip
inspect_semantics_lem_example = inspect_semantics_lem variables functions parse_text formula refl

is_accepted : create_parser parse_text formula ≡ gives (some tree)
unfolding create_parser validate validate_node is_rolling strip String-discrete decide_by
is_accepted = refl

parse-create_parser_example : rejects (parse python context (some tree)) ≡ false
parse-create_parser_example =
    parse-create_parser python context parse_text formula (some tree) is_accepted

abbrev conditional : Node
conditional = if_exp (constant (boolean true)) tree (constant (boolean false))

conditional_lem : evaluate python context conditional ≡ gives (boolean true)
unfolding evaluate is_rolling String-discrete decide_by apply_comparison
conditional_lem = refl

evaluate-HasType_example : HasType (infer_node_type conditional) (boolean true)
unfolding infer_node_type
evaluate-HasType_example =
    evaluate-HasType python context conditional (boolean true) (refl, tt, tt) conditional_lem

abbrev candle : ℤ → ℤ → Candle
candle start_time high = record {
  start_time = start_time;
  open_price = pos 10;
  high = high;
  low = pos 5;
  close = pos 10;
  volume = pos 1;
}

abbrev market : Option MarketData
market = some (record {
  timestamp = some (pos 3);
  close_price = pos 8;
  high_price = pos 9;
  low_price = pos 7;
})

abbrev closed : List Candle
closed = candle (pos 1) (pos 12) ∷ candle (pos 2) (pos 11) ∷ []

highest-is_active_candle_example :
    (highest market (closed ++ candle (pos 3) (pos 40) ∷ []) "high" (integer (pos 2))
      ≡ highest market (closed ++ candle (pos 4) (pos 50) ∷ []) "high" (integer (pos 2)))
    × (lowest market (closed ++ candle (pos 3) (pos 40) ∷ []) "high" (integer (pos 2))
        ≡ lowest market (closed ++ candle (pos 4) (pos 50) ∷ []) "high" (integer (pos 2)))
highest-is_active_candle_example =
    highest-is_active_candle market closed (candle (pos 3) (pos 40)) (candle (pos 4) (pos 50))
      "high" (integer (pos 2)) refl refl

abbrev high_of : Candle → ℤ
high_of c = c.high

is_high : find_extractor "high" extractors ≡ some high_of
unfolding String-discrete decide_by
is_high = refl

highest-lowest_example :
    (l h : ℤ) × (lowest market closed "high" (integer (pos 1)) ≡ inr (some l))
    × (highest market closed "high" (integer (pos 1)) ≡ inr (some h))
    × IsAmong high_of l (candle (pos 2) (pos 11) ∷ [])
    × IsAmong high_of h (candle (pos 2) (pos 11) ∷ [])
    × AreWithin high_of l h (candle (pos 2) (pos 11) ∷ [])
highest-lowest_example = highest-lowest market closed "high" 0 high_of is_high (omega arith)
