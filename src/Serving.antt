-- ===== src/Serving.antt =====
-- serving/bands.py, orchestrator.py, parity.py and shadow.py: the policy bands and the decision of an application, the
-- comparison of two score paths, and the rungs of the ladder to production.
pub mod Bands
pub mod Decide
pub mod Precedence
pub mod Backing
pub mod Parity
pub mod Agreement
pub mod Ladder
pub mod Advance
mod Tests
mod ShadowTests
