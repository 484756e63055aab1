-- ===== src/Client.antt =====
-- cmd/mygrok: the tunnel client.
pub mod Args
pub mod Auth
pub mod Mcp
pub mod Proxy
pub mod Reconnect
pub mod Session
pub mod Config
pub mod Names
pub mod Serve
pub mod Admin
pub mod Start
pub mod Service
