-- ===== src/Codex.antt =====
-- Tasks as Codex threads (internal/engine/codex): the options of a thread, what a thread shows, and its
-- conversation.
pub mod Options
pub mod Thread
pub mod Conversation
pub mod Folded
pub mod Config
pub mod Written
