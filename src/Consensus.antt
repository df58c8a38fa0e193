-- ===== src/Consensus.antt =====
-- src/trading/consensus and src/trading/strategies: the strategies' weights, their votes, and the
-- decision on a trade.
pub mod Strategy
pub mod Decision
pub mod Manager
