-- ===== src/Statusline.antt =====
-- The status line (internal/statusline).
pub mod Width
pub mod Fit
pub mod Ledger
pub mod Lines
pub mod Usage
pub mod Columns
pub mod Tries
pub mod Overflow
pub mod Layout
pub mod Parts
pub mod Aligned
pub mod Grids
pub mod Bounded
pub mod Fitted
pub mod Shown
pub mod Counts
