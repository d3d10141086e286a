-- ===== src/Defi/Laws.antt =====
-- Theorems on the calldata parser.
pub mod Keeps
pub mod Accepted
pub mod Slippage
pub mod Swaps
pub mod Nested
