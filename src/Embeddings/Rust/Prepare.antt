-- ===== src/Embeddings/Rust/Prepare.antt =====
-- scripts/embeddings/generate.mjs, `rust`: the preparation of a vector and its tests.
use cliptown_lib_core.Prelude.{◌∷◌, List, ◌++◌, []}
use cliptown_lib_core.Text.{Text, lit}
use cliptown_lib_core.Embeddings.{Setup}
use cliptown_lib_core.Embeddings.Spelling.{unlines}
use cliptown_lib_core.Embeddings.Rust.Entity.{
  rust_columns, rust_opening, rust_registry, rust_relations,
}

unfoldable pub rust_errors : List Text
rust_errors =
    lit "/// Errors a vector can fail on before it ever reaches Postgres. These mirror the"
    ∷ lit "/// CHECK constraints exactly, so a caller that passes `prepare_embedding` will"
    ∷ lit "/// not be rejected by the database for these reasons."
    ∷ lit "#[derive(Clone, Debug, PartialEq, Eq)]"
    ∷ lit "pub enum EmbeddingError {"
    ∷ lit "    UnknownModel,"
    ∷ lit "    /// The vector is wider than the model says it should be."
    ∷ lit "    WidthExceedsNative { got: usize, native: usize },"
    ∷ lit "    /// The vector is wider than the canonical slot; nothing can be done with it."
    ∷ lit "    WidthExceedsCanonical { got: usize },"
    ∷ lit "    /// All components are zero, so it cannot be normalized."
    ∷ lit "    ZeroVector,"
    ∷ lit "}"
    ∷ []
    ∷ []

unfoldable pub rust_prepare : List Text
rust_prepare =
    lit "/// Normalize to unit length and right zero-pad to the canonical width."
    ∷ lit "///"
    ∷ lit "/// This is the only supported way to produce a value for the `embedding`"
    ∷ lit "/// column. Padding after normalizing is deliberate and not interchangeable with"
    ∷ lit "/// the reverse: appending zeros does not change the L2 norm, so normalize-then-pad"
    ∷ lit "/// and pad-then-normalize agree - but doing it in this order keeps the"
    ∷ lit "/// normalization defined over the model's own components only."
    ∷ lit
        "pub fn prepare_embedding(model_key: &str, raw: &[f32]) -> Result<Vec<f32>, EmbeddingError> {"
    ∷ lit "    let model = registered_model(model_key).ok_or(EmbeddingError::UnknownModel)?;"
    ∷ []
    ∷ lit "    if raw.len() > EMBEDDING_WIDTH {"
    ∷ lit "        return Err(EmbeddingError::WidthExceedsCanonical { got: raw.len() });"
    ∷ lit "    }"
    ∷ lit "    if raw.len() > model.native_dims {"
    ∷ lit "        return Err(EmbeddingError::WidthExceedsNative {"
    ∷ lit "            got: raw.len(),"
    ∷ lit "            native: model.native_dims,"
    ∷ lit "        });"
    ∷ lit "    }"
    ∷ []
    ∷ lit "    let norm = raw.iter().map(|x| x * x).sum::<f32>().sqrt();"
    ∷ lit "    if !(norm > 0.0) || !norm.is_finite() {"
    ∷ lit "        return Err(EmbeddingError::ZeroVector);"
    ∷ lit "    }"
    ∷ []
    ∷ lit "    let mut out = Vec::with_capacity(EMBEDDING_WIDTH);"
    ∷ lit "    out.extend(raw.iter().map(|x| x / norm));"
    ∷ lit "    out.resize(EMBEDDING_WIDTH, 0.0);"
    ∷ lit "    Ok(out)"
    ∷ lit "}"
    ∷ []
    ∷ []

unfoldable pub rust_tests : List Text
rust_tests =
    lit "#[cfg(test)]"
    ∷ lit "mod tests {"
    ∷ lit "    use super::*;"
    ∷ []
    ∷ lit "    #[test]"
    ∷ lit "    fn pads_to_the_canonical_width() {"
    ∷ lit "        let raw = vec![1.0f32; 1536];"
    ∷ lit "        let v = prepare_embedding(\"openai:text-embedding-3-small:1\", &raw).unwrap();"
    ∷ lit "        assert_eq!(v.len(), EMBEDDING_WIDTH);"
    ∷ lit "        assert!(v[1536..].iter().all(|x| *x == 0.0), \"tail must be exactly zero\");"
    ∷ lit "    }"
    ∷ []
    ∷ lit "    #[test]"
    ∷ lit "    fn pad_is_norm_preserving() {"
    ∷ lit "        let raw: Vec<f32> = (0..1536).map(|i| (i as f32) - 700.0).collect();"
    ∷ lit "        let v = prepare_embedding(\"openai:text-embedding-3-small:1\", &raw).unwrap();"
    ∷ lit "        let norm = v.iter().map(|x| x * x).sum::<f32>().sqrt();"
    ∷ lit "        assert!((norm - 1.0).abs() <= NORM_TOLERANCE, \"norm was {norm}\");"
    ∷ lit "    }"
    ∷ []
    ∷ lit "    #[test]"
    ∷ lit "    fn rejects_a_vector_wider_than_its_model() {"
    ∷ lit "        let raw = vec![1.0f32; 3072];"
    ∷ lit "        assert_eq!("
    ∷ lit "            prepare_embedding(\"openai:text-embedding-3-small:1\", &raw),"
    ∷ lit "            Err(EmbeddingError::WidthExceedsNative { got: 3072, native: 1536 })"
    ∷ lit "        );"
    ∷ lit "    }"
    ∷ []
    ∷ lit "    #[test]"
    ∷ lit "    fn the_4096_models_fit_with_headroom() {"
    ∷ lit
        "        for key in [\"qwen:Qwen3-Embedding-8B:1\", \"nvidia:NV-Embed-v2:1\", \"baai:bge-en-icl:1\"] {"
    ∷ lit "            let m = registered_model(key).expect(key);"
    ∷ lit "            assert_eq!(m.native_dims, 4096);"
    ∷ lit "            assert!(m.native_dims <= EMBEDDING_WIDTH);"
    ∷ lit "        }"
    ∷ lit "    }"
    ∷ []
    ∷ lit "    #[test]"
    ∷ lit "    fn non_mrl_models_are_excluded_from_the_prefix_index() {"
    ∷ lit
        "        assert!(!registered_model(\"nvidia:NV-Embed-v2:1\").unwrap().mrl_prefix_valid());"
    ∷ lit "        assert!(!registered_model(\"baai:bge-en-icl:1\").unwrap().mrl_prefix_valid());"
    ∷ lit
        "        assert!(!registered_model(\"openai:text-embedding-ada-002:2\").unwrap().mrl_prefix_valid());"
    ∷ lit
        "        assert!(registered_model(\"openai:text-embedding-3-small:1\").unwrap().mrl_prefix_valid());"
    ∷ lit "    }"
    ∷ lit "}"
    ∷ []

-- `rust`.
unfoldable pub rust : Setup → Text
unfolding unlines
rust s = unlines (
    rust_opening s
    ++ rust_columns s
    ++ rust_relations s
    ++ rust_registry s
    ++ rust_errors
    ++ rust_prepare
    ++ rust_tests)
