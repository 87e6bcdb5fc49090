-- ===== src/Definitions.antt =====
-- definitions/appendix_a.py: the labels of outcomes, and the dates of windows and observations.
pub mod Labels
pub mod Dates
pub mod Windows
mod Tests
