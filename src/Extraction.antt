-- ===== src/Extraction.antt =====
-- transformation_lineage/extraction: from what ran to the sources that hold its code.
pub mod Resolver
