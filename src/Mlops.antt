-- ===== src/Mlops.antt =====
-- src/lending_hub/mlops: model artifacts, the promotion gate and the in-memory registry.
pub mod Artifact
pub mod Promotion
pub mod Gate
pub mod Registry
mod Tests
