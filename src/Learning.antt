-- ===== src/Learning.antt =====
-- src/lending_hub/learning: the standing promotion criterion, and the cadence of the activities.
pub mod Promotion
pub mod Standing
pub mod Cadence
pub mod Overdue
mod Tests
