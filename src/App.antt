-- ===== src/App.antt =====
-- The application (internal/app): what commands, hooks and the status line do with the flow and the
-- store.
pub mod Observe
pub mod Effects
pub mod Advance
pub mod Check
pub mod Again
pub mod Commands
pub mod Sessions
pub mod Gated
pub mod Labels
pub mod Draft
pub mod Launch
pub mod Launched
pub mod Queued
pub mod Hold
pub mod Held
pub mod View
pub mod Notice
pub mod Announced
pub mod Wait
pub mod Waiting
pub mod Ending
pub mod Confirm
