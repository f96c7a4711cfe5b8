-- ===== src/Flow.antt =====
-- The task flow (internal/flow/flow.go): where a task goes from what was observed about it.
pub mod Kinds
pub mod Texts
pub mod Next
pub mod Resume
pub mod Diagram
pub mod Frame
pub mod Waiting
pub mod Gates
pub mod Rounds
pub mod Guard
pub mod Progress
pub mod Resuming
