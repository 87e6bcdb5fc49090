-- ===== src/Privacy.antt =====
-- privacy/consent.py: what a consent permits, and when; privacy/retention.py: how long tables are
-- kept.
pub mod Consent
pub mod Permission
pub mod Retention
pub mod Consistent
mod Tests
