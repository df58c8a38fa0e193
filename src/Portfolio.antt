-- ===== src/Portfolio.antt =====
-- src/trading/protection: the cash and positions behind one quote currency, the limits on orders,
-- and the manager that gates trades.
pub mod Book
pub mod Config
pub mod Guard
pub mod Manager
