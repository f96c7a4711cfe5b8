-- ===== src/Check.antt =====
-- Checks (internal/check/check.go): the `--check` value, and running a check. The verdict is in
-- Verdict.antt.
pub mod Spec
pub mod Run
pub mod Decided
