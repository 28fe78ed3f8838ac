-- ===== src/Test.antt =====
-- The definitions and theorems at small inputs.
pub mod Patterns
pub mod Breaker
pub mod RateLimiter
pub mod Decision
pub mod Event
pub mod Detectors
pub mod Lens
pub mod Integrations
pub mod Cli
pub mod Tools
pub mod Nodes
pub mod Sets
pub mod Global
pub mod Topology
