-- ===== src/Proxy/Piercer.antt =====
-- ProxyPiercer of lirix/layers/l3_proxy_piercer.py: what a target resolves to, the cache of
-- inspections, and the ABI of what it resolves to.
mod Inspect
mod Fetch
unfoldable pub use Inspect.*
unfoldable pub use Fetch.*
