-- ===== src/Tests.antt =====
-- The theorems at concrete inputs, for each part of the program.
mod HealthTests
mod PortfolioTests
mod SessionTests
mod EventsTests
mod ExpressionsTests
mod ConsensusTests
mod RegistriesTests
mod ProtectionTests
mod HoldingsTests
mod ExecutionTests
mod RetentionTests
mod WalkForwardTests
