-- ===== src/DataFunction.antt =====
-- proxy_command of functions/datafunction/proxy-command.hpp: what a data function does with the packets
-- of a proxy, with its cache between the proxy and the storage backend.
pub mod Command
pub mod Listen
pub mod Cached
pub mod WithProxy
pub mod Moved
