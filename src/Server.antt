-- ===== src/Server.antt =====
-- cmd/mygrokd: the public tunnel server.
pub mod Names
pub mod Registry
pub mod Disk
pub mod Acl
pub mod Locks
pub mod Passkeys
pub mod Headers
pub mod Public
pub mod Invites
pub mod Lan
pub mod Handshake
pub mod Admin
pub mod Manage
pub mod System
pub mod Startup
pub mod Views
