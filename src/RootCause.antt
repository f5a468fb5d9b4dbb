-- ===== src/RootCause.antt =====
-- backend/server/root_cause.py: where bad data may come from. The queries are parameters.
pub mod Columns
pub mod Evidence
pub mod Rank
pub mod Tables
