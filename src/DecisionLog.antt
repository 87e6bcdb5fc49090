-- ===== src/DecisionLog.antt =====
-- src/lending_hub/decisionlog: the decision record, the hash-chained log and the replay audit.
pub mod Json
pub mod Record
pub mod Log
pub mod Chain
pub mod Tamper
pub mod Replay
pub mod Audit
mod Tests
