-- ===== src/Tests.antt =====
-- Concrete runs: the theorems at inputs that meet their hypotheses.
mod Fixtures
mod ControlFixtures
pub mod ControlPlane
pub mod Ledger
pub mod Gate
pub mod Planner
pub mod Registry
pub mod Routing
pub mod Balancer
pub mod LoadGate
pub mod Limiter
