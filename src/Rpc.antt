-- ===== src/Rpc.antt =====
-- lirix/layers/l4_rpc_manager.py: the reconciliation of block heights over several endpoints, its
-- circuit breakers, and the two-thirds quorum.
pub mod Types
pub mod Breaker
pub mod Reconcile
pub mod Quorum
pub mod Laws
mod Tests
mod QuorumTests
