-- ===== src/FeatureStore.antt =====
-- src/lending_hub/featurestore: point-in-time correct feature joins.
pub mod Values
pub mod Order
pub mod Bisect
pub mod AsOf
pub mod Latest
pub mod PointInTime
pub mod Join
pub mod NoLeak
pub mod Dataset
pub mod Known
pub mod Counts
pub mod Skew
pub mod Parity
mod Tests
