-- ===== src/Detector.antt =====
-- The stateless detectors of src/langgraph_lens/detectors, each a child module; the stateful ones
-- are Tool and Comms.
pub mod SqlInjection
pub mod Memory
pub mod AttackSurface
pub mod Checkpoint
pub mod GoalHijack
pub mod Pii
pub mod SupplyChain
