-- ===== src/Rpc/Laws.antt =====
-- Theorems on the RPC manager: the heights stored, what a returned height means, the breakers over
-- many calls, and the quorum.
pub mod Gathered
pub mod Selected
pub mod Accepted
pub mod Votes
pub mod Retries
pub mod Answers
pub mod Quorums
pub mod Sound
pub mod Found
pub mod Refreshed
pub mod Induction
pub mod Breakers
pub mod Modes
