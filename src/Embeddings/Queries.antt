-- ===== src/Embeddings/Queries.antt =====
-- scripts/embeddings/generate.mjs: the queries.
pub mod Hybrid
pub mod Dedupe
pub mod Matches
