-- ===== src/Tests.antt =====
-- Tests and examples.
mod Warehouse
mod Validators
mod Parallel
mod Cache
mod Lineage
mod Sublineage
mod Build
mod RootCause
mod Statement
mod Trace
mod Nearest
mod Extraction
