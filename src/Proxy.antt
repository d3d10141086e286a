-- ===== src/Proxy.antt =====
-- lirix/layers/l3_proxy_piercer.py: the ABI cache, the inspection of proxies and its own cache.
pub mod AbiCache
pub mod Probe
pub mod Piercer
pub mod Laws
mod Tests
