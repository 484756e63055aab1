-- ===== src/Tests.antt =====
-- The theorems at concrete inputs.
pub mod Data
pub mod Registry
mod Acl
mod Locks
pub mod Passkeys
pub mod Handshake
mod Invites
pub mod Public
pub mod Manage
mod Visitors
mod Lan
mod Client
mod Command
mod System
mod Views
mod Starting
