-- ===== src/Session.antt =====
-- src/trading/session and the records of api/interfaces that it fills: lots of a position, and
-- first-in first-out matching of sells against them.
pub mod Lot
pub mod Matcher
pub mod Context
pub mod Manager
