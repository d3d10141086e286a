-- ===== src/Session/Laws.antt =====
-- Theorems on the validation session.
pub mod Tail
pub mod Unbounded
pub mod Accepted
pub mod Replayable
pub mod Preserved
pub mod Induction
pub mod Meta
pub mod RoundTrip
pub mod Lifecycle
pub mod Outcome
pub mod Verified
