-- ===== src/Pipeline.antt =====
-- api/services/query_pipeline.py
pub mod DatasetCache
pub mod SingleFlight
