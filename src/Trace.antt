-- ===== src/Trace.antt =====
-- trace/: the requests that are kept for inspection.
pub mod Store
