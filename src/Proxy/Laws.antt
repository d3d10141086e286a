-- ===== src/Proxy/Laws.antt =====
-- Theorems on the proxy piercer: the ABI cache as a table with expiry, and its size.
pub mod Table
pub mod Calls
pub mod Refines
pub mod Writes
pub mod Replies
pub mod Size
pub mod Resolved
pub mod Direct
pub mod Inspected
pub mod Entries
