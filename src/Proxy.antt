-- ===== src/Proxy.antt =====
-- The packets between clients, proxies and data functions (proxy/serializer.hpp), the requests inside them
-- (proxy/json-replacement.hpp), the ring of proxies (proxy/zookeeper.hpp) and what a proxy does with the
-- packets of clients (proxy/server.hpp).
pub mod Header
pub mod Request
pub mod Ring
pub mod Topics
use slsfs.Prelude.{ℕ}
