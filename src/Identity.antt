-- ===== src/Identity.antt =====
-- identity/keys.py, survivorship.py, spine.py and audit.py: the keys of the records, the spine that
-- joins the records by them, and the value that survives where sources differ.
pub mod Case
pub mod Keys
pub mod Stable
pub mod Spine
pub mod Build
pub mod Joined
pub mod Loops
pub mod Accounts
pub mod Cases
pub mod Records
pub mod Audited
pub mod Rates
pub mod Gate
pub mod Survivorship
mod Tests
