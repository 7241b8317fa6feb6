-- ===== src/Decisions/Handlers.antt =====
-- The cases of applyOne of lib/decisions/apply.js.
pub mod Members
pub mod Moderation
pub mod Invites
pub mod Devices
pub mod Settings
