-- ===== src/WalkForward.antt =====
-- src/walk_forward: how a history is cut into the folds of a walk-forward evaluation.
pub mod Folds
pub mod Counts
