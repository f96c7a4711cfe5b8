-- ===== src/Landing.antt =====
-- Landing a task's branch on its target (`landing` and `landed` of internal/app/advance.go).
pub mod Merge
pub mod Proven
pub mod Refused
pub mod Guarded
