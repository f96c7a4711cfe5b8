-- ===== src/Gitx.antt =====
-- Git (internal/gitx/gitx.go).
pub mod Kinds
pub mod Texts
pub mod Parse
pub mod Query
pub mod Merges
pub mod Status
