-- ===== src/Kufar.antt =====
-- The client of Kufar's search: api/services/kufar_client.py. What Kufar answers and the readings of
-- the clock are arguments.
pub mod Payload
pub mod Retry
pub mod Pages
pub mod Pacer
mod Tests
