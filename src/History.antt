-- ===== src/History.antt =====
-- api/services/history_service.py
pub mod Table
pub mod Lookup
pub mod Known
pub mod Snapshots
pub mod Sync
mod Tests
