-- ===== src/Embeddings/Rust.antt =====
-- scripts/embeddings/generate.mjs: the SeaORM entity.
pub mod Entity
pub mod Prepare
