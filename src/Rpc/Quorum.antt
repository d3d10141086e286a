-- ===== src/Rpc/Quorum.antt =====
-- AsyncQuorumProvider of lirix/layers/l4_rpc_manager.py: the choice of an endpoint, the retries of
-- a call, and the two-thirds quorum on the results of one eth_call. Times are milliseconds.
mod Refresh
mod Retry
mod Ballot
mod Decide
unfoldable pub use Refresh.*
unfoldable pub use Retry.*
unfoldable pub use Ballot.*
unfoldable pub use Decide.*
