-- ===== src/Warehouse.antt =====
-- backend/circuit_breaker.py and backend/warehouse_gate.py.
pub mod Breaker
pub mod Gate
pub mod Tag
