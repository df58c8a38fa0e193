-- ===== src/Expressions/Evaluator/Typing.antt =====
-- src/core/expressions/expression_parser.py: the inferred type of a formula against its values.
use mathlib.Core.Path.{subst}
use ml_crypto_trading.Prelude.{◌≡◌, if_intro}
use ml_crypto_trading.Expressions.Syntax.{
  Value, null, boolean, integer, real, text, u_sub, not_op, other_unary, Node, constant, name,
  bin_op, compare, if_exp, bool_op, unary_op, call, other_node, ExpressionValueType, number_type,
  boolean_type, string_type, infer_node_type,
}
use ml_crypto_trading.Expressions.Result.{Result, gives, fails, ◌>>=◌}
use ml_crypto_trading.Expressions.Evaluator.{
  Python, ExpressionContext, truth, evaluate, evaluate_all, evaluate_chain,
}

-- The values of a type. A formula of type NUMBER may have any value: variables and functions are not
-- typed.
abbrev pub HasType : ExpressionValueType → Value → Type 0
HasType boolean_type (boolean b) = Unit
HasType boolean_type v = ⊥
HasType string_type (text s) = Unit
HasType string_type v = ⊥
HasType t v = Unit

-- The two branches of each conditional have one type.
abbrev pub IsUniform : Node → Type 0
IsUniform (if_exp t b o) = (infer_node_type b ≡ infer_node_type o) × IsUniform b × IsUniform o
IsUniform n = Unit

abbrev Yields : (Value → Type 0) → Result Value → Type 0
Yields P (gives v) = P v
Yields P (fails e) = Unit

Yields->>= {ℓ} :
    {A : Type ℓ} (P : Value → Type 0) (m : Result A) (f : A → Result Value)
    → ((a : A) → Yields P (f a))
    → Yields P (m >>= f)
Yields->>= P (gives a) f h = h a
Yields->>= P (fails e) f h = tt

Yields-number : (r : Result Value) → Yields (HasType number_type) r
Yields-number (gives v) = tt
Yields-number (fails e) = tt

module _ (python : Python) (context : ExpressionContext) where
  typed :
      (n : Node) → IsUniform n → Yields (HasType (infer_node_type n)) (evaluate python context n)
  unfolding evaluate infer_node_type
  typed (constant null) h = tt
  typed (constant (boolean b)) h = tt
  typed (constant (integer z)) h = tt
  typed (constant (real r)) h = tt
  typed (constant (text s)) h = tt
  typed (name x) h = Yields-number _
  typed (bin_op op l r) h = Yields-number _
  typed (compare l cs) h =
      Yields->>= (HasType boolean_type) (evaluate python context l) _
        (λ a. Yields->>= (HasType boolean_type) (evaluate_chain python context cs a) _ (λ b. tt))
  typed (if_exp t b o) h =
      Yields->>= (HasType (infer_node_type b)) (evaluate python context t) _ (λ v.
        if_intro (Yields (HasType (infer_node_type b))) (truth v) (typed b h.1)
          (rw h.0 (typed o h.2)))
  typed (bool_op op ns) h =
      Yields->>= (HasType boolean_type) (evaluate_all python context ns) _ (λ vs. tt)
  typed (unary_op u_sub n) h = Yields-number _
  typed (unary_op not_op n) h =
      Yields->>= (HasType boolean_type) (evaluate python context n) _ (λ v. tt)
  typed (unary_op other_unary n) h = Yields-number _
  typed (call f args keywords) h = Yields-number _
  typed other_node h = tt

  -- A formula whose conditionals have branches of one type, and that evaluates to a value, has a value
  -- of its inferred type: a Boolean if that is BOOLEAN, and a text if it is STRING.
  pub evaluate-HasType :
      (n : Node) (v : Value)
      → IsUniform n
      → evaluate python context n ≡ gives v
      → HasType (infer_node_type n) v
  evaluate-HasType n v u e = subst (Yields (HasType (infer_node_type n))) e (typed n u)
