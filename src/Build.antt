-- ===== src/Build.antt =====
-- The build of the column graph: transformation_lineage/pipeline.py and the modules that it drives.
pub mod Graph
pub mod Endpoints
pub mod Versions
