-- ===== src/Hooks/Laws.antt =====
-- Theorems on the hooks.
pub mod Allowed
pub mod Turn
pub mod Confined
pub mod Recorded
pub mod Judged
pub mod Isolated
