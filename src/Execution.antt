-- ===== src/Execution.antt =====
-- src/trading/orders and the order rows of src/database: how orders are opened, executed on the
-- exchange, recorded, reconciled and cancelled.
pub mod Effects
pub mod OrderTable
pub mod State
pub mod Saving
pub mod Placing
pub mod Reconciling
pub mod Stable
pub mod Orderly
pub mod Liveness
pub mod Guard
