-- ===== src/Sublineage.antt =====
-- transformation_lineage/sublineage: the column graph and the walks on it.
pub mod Graph
pub mod Bfs
pub mod KPaths
pub mod Backtrack
pub mod Keys
