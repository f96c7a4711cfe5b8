-- ===== src/Finish.antt =====
-- Finishing a task (internal/app/finish.go): what is checked in git, and what is removed.
pub mod Texts
pub mod Inspect
pub mod Clean
pub mod Command
pub mod Cancel
pub mod Gone
pub mod Emptied
pub mod Safe
pub mod Verified
pub mod Kept
pub mod InGit
