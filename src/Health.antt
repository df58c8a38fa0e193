-- ===== src/Health.antt =====
-- src/trading/health: conditions that observers report, the state machine over them, the permissions
-- that follow, and the monitor that ties these together and publishes events.
pub mod Models
pub mod Registry
pub mod Transition
pub mod Permission
pub mod Machine
pub mod Monitor
