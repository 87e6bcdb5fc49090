-- ===== src/Ews.antt =====
-- ews/signals.py and ews/routing.py: the early-warning signals, their alerts and their retirement.
pub mod Signals
pub mod Alerts
pub mod Assignment
pub mod Manager
pub mod Retirement
pub mod Decay
mod Tests
