-- ===== src/Retention.antt =====
-- src/retention: for how long each category of data is kept, and who must confirm a change of that.
pub mod Durations
pub mod Policy
pub mod Building
pub mod Resolver
