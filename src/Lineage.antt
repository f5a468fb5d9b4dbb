-- ===== src/Lineage.antt =====
-- The lineage graph of backend/lineage_service.py.
pub mod Refs
pub mod Edges
pub mod Service
pub mod Statement
pub mod Trace
