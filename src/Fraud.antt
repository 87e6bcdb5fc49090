-- ===== src/Fraud.antt =====
-- fraud/routing.py: the routing of scores by bands, and the queue of fraud-desk cases;
-- fraud/velocity.py: the counters of applications in windows of event time.
pub mod Bands
pub mod Actions
pub mod Queue
pub mod Cases
pub mod Labels
pub mod Search
pub mod Velocity
pub mod Buckets
pub mod Windows
pub mod Features
mod Tests
mod VelocityTests
