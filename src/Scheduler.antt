-- ===== src/Scheduler.antt =====
-- The scheduler: scheduler/collector.py.
pub mod Due
pub mod Groups
pub mod Alerts
pub mod Fetch
pub mod Process
pub mod Run
pub mod Cleanup
mod Tests
