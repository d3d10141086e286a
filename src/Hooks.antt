-- ===== src/Hooks.antt =====
-- lirix/core/hook_contract.py and hook_manager.py: the hooks of third parties, what they may
-- return, and what they may change. `Hooks.Verdict` judges one result, `Hooks.Invoke` invokes the
-- callbacks of a point.
pub mod Types
pub mod Contract
pub mod Verdict
pub mod Manager
pub mod Settle
pub mod Invoke
pub mod Direct
pub mod Laws
mod Tests
