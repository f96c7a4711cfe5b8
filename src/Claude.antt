-- ===== src/Claude.antt =====
-- Tasks as Claude Code sessions (internal/engine/claude): the settings and the command line of a
-- session, and how a session is seen and removed.
mod Paths
pub mod Settings
pub mod Provider
pub mod Forwarded
pub mod Start
pub mod Session
pub mod Private
pub mod Sessions
pub mod Remove
pub mod Verified
