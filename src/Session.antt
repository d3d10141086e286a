-- ===== src/Session.antt =====
-- lirix/core/session_fsm.py and lirix/core/session.py: the validation session, its legality rules
-- and its replay bundle.
pub mod Types
pub mod Fsm
pub mod Store
pub mod Methods
pub mod Replay
pub mod Verify
pub mod Calls
pub mod Laws
mod Tests
