-- ===== src/Defi.antt =====
-- lirix/layers/l3_defi_parser.py: the inspection of calldata, swaps and nested multicalls, and the
-- lists of allowed addresses; the selectors of lirix/core/signatures.py.
pub mod Types
pub mod Swaps
pub mod Multicall
pub mod Validate
pub mod Laws
mod Tests
