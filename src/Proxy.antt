-- ===== src/Proxy.antt =====
-- internal/proxy: the reverse proxy and its restoring writer.
pub mod Token
pub mod Escape
pub mod Stream
pub mod Body
pub mod Reader
pub mod Status
pub mod Gateway
pub mod Request
pub mod Response
pub mod Route
pub mod Demask
