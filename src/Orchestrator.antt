-- ===== src/Orchestrator.antt =====
-- lirix/core/orchestrator.py with the helpers of lirix/_facade.py and the request of
-- lirix/core/client_components.py: the pipelines validate, simulate and both, over the hooks and
-- the session. The layers are operations of the `Client`.
pub mod Types
pub mod Actions
pub mod Runs
pub mod Laws
mod Tests
mod FullTests
