-- ===== src/Expressions.antt =====
-- src/core/expressions: the formulas of strategies and position sizes, their validation, their types
-- and their evaluation.
pub mod Syntax
pub mod Result
pub mod Validator
pub mod Inspector
pub mod Evaluator
pub mod Windows
