-- ===== src/Mover.antt =====
-- Writing moves and running their effects (internal/flow/flow.go): `Mover.Apply` and the event log.
pub mod Apply
pub mod Once
