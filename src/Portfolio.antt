-- ===== src/Portfolio.antt =====
-- portfolio/staging.py: the impairment stages of accounts.
pub mod Staging
pub mod Determined
mod Tests
