-- ===== src/Embeddings/TypeSpec.antt =====
-- scripts/embeddings/generate.mjs, `typespec`.
pub mod Enums
use cliptown_lib_core.Prelude.{◌∷◌, List, ◌++◌, map, if◌then◌else◌, []}
use cliptown_lib_core.Text.{Text, join, lit, replace_all}
use cliptown_lib_core.Embeddings.{
  ExtraColumn, Setup, candidate_count, entity_name, extra, is_timestamp, kinds, models, ns,
  plain_org, prefix_dims, providers, result_count, tenant_camel, tol, w,
}
use cliptown_lib_core.Embeddings.Spelling.{camel, pascal, unlines}
use cliptown_lib_core.Embeddings.TypeSpec.Enums.{
  tsp_enum, tsp_providers, tsp_keys, tsp_kinds, typespec_opening,
}

-- `s.replace(/"/g, '\\"')`.
unfoldable pub escaped_quotes : Text → Text
escaped_quotes s = replace_all b'"' (b'\\' ∷ b'"' ∷ []) s

unfoldable pub typespec_col : ExtraColumn → Text
typespec_col c =
    lit "  "
    ++ (if is_timestamp c then lit "@format(\"date-time\")" else lit "@format(\"uuid\")")
    ++ lit " "
    ++ camel c.name
    ++ (if c.not_null then [] else lit "?")
    ++ lit ": string"
    ++ (if c.not_null then [] else lit " | null")
    ++ lit ";"

unfoldable pub typespec_extra : Setup → Text
typespec_extra s = join (lit "\n") (map typespec_col (extra s))

unfoldable pub typespec_vector : Setup → List Text
typespec_vector s =
    lit "@doc(\"\"\""
    ∷ (lit "Canonical stored embedding: exactly "
        ++ w s
        ++ lit " components, left-aligned to nativeDims,")
    ∷ (lit "zero past nativeDims, L2-normalized to unit length within "
        ++ tol s
        ++ lit ". The zero pad is")
    ∷ (lit "norm-preserving, so a "
        ++ lit "1536"
        ++ lit "-component OpenAI vector padded to "
        ++ w s
        ++ lit " ranks exactly as it")
    ∷ lit "would at its native width."
    ∷ lit "\"\"\")"
    ∷ (lit "@minItems(" ++ w s ++ lit ")")
    ∷ (lit "@maxItems(" ++ w s ++ lit ")")
    ∷ lit "model EmbeddingVector is float32[];"
    ∷ []
    ∷ []

unfoldable pub typespec_model : Setup → List Text
typespec_model s =
    (lit "@doc(\"One row of the model registry, mirroring " ++ ns s ++ lit ".embedding_models.\")")
    ∷ lit "model EmbeddingModel {"
    ∷ lit "  modelKey: EmbeddingModelKey;"
    ∷ lit "  provider: EmbeddingProvider;"
    ∷ lit "  @maxLength(160) modelName: string;"
    ∷ lit "  @maxLength(40) modelVersion: string;"
    ∷ []
    ∷ lit "  @doc(\"Native width of this model before padding.\")"
    ∷ (lit "  @minValue(1) @maxValue(" ++ w s ++ lit ") nativeDims: int32;")
    ∷ []
    ∷ lit
        "  @doc(\"Matryoshka-trained: a prefix of the vector approximates the whole. Non-MRL models are excluded from the prefix ANN index because a prefix of them is an arbitrary coordinate subset.\")"
    ∷ lit "  mrl: boolean;"
    ∷ []
    ∷ (lit "  @doc(\"mrl AND nativeDims >= "
        ++ prefix_dims
        ++ lit ". Governs eligibility for the halfvec("
        ++ prefix_dims
        ++ lit ") prefix index.\")")
    ∷ lit "  mrlPrefixValid: boolean;"
    ∷ []
    ∷ lit
        "  @doc(\"False means the client must L2-normalize before insert or the unit-norm CHECK rejects the row.\")"
    ∷ lit "  normalizedByProvider: boolean;"
    ∷ []
    ∷ lit "  family: string;"
    ∷ lit "  notes?: string;"
    ∷ lit "}"
    ∷ []
    ∷ []

unfoldable pub typespec_entity : Setup → List Text
typespec_entity s =
    (lit "@doc(\"" ++ escaped_quotes s.manifest.purpose ++ lit "\")")
    ∷ (lit "model " ++ entity_name s ++ lit " {")
    ∷ lit "  @format(\"uuid\") id: string;"
    ∷ (lit "  @format(\"uuid\") " ++ tenant_camel s ++ lit ": string;")
    ∷ []
    ∷ lit "  entityKind: EntityKind;"
    ∷ lit "  @format(\"uuid\") entityId: string;"
    ∷ []
    ∷ lit "  modelKey: EmbeddingModelKey;"
    ∷ lit "  provider: EmbeddingProvider;"
    ∷ lit "  @maxLength(160) modelName: string;"
    ∷ lit "  @maxLength(40) modelVersion: string;"
    ∷ (lit "  @minValue(1) @maxValue(" ++ w s ++ lit ") nativeDims: int32;")
    ∷ lit "  mrlPrefixValid: boolean;"
    ∷ []
    ∷ lit "  embedding: EmbeddingVector;"
    ∷ []
    ∷ lit "  @doc(\"Weight A in the tsvector: titles, names, human tags.\")"
    ∷ lit "  @maxLength(2048) titleText: string;"
    ∷ lit "  @doc(\"Weight B: human descriptions, captions, abstracts.\")"
    ∷ lit "  @maxLength(8192) summaryText: string;"
    ∷ lit "  @doc(\"Weight D: full body, transcript or OCR text.\")"
    ∷ lit "  @maxLength(65536) bodyText: string;"
    ∷ []
    ∷ lit
        "  @doc(\"sha256 of the exact text that was embedded. Lets a re-embed pass skip unchanged rows and gives exact-duplicate detection a path that never touches a vector.\")"
    ∷ lit "  @pattern(\"^[0-9a-f]{64}$\") contentSha256: string;"
    ∷ []
    ∷ lit "  @maxLength(2048) sourceUri?: string | null;"
    ∷ lit "  metadata: Record<unknown>;"
    ∷ typespec_extra s
    ∷ []
    ∷ lit "  @format(\"date-time\") generatedAt: string;"
    ∷ lit "  @format(\"date-time\") createdAt: string;"
    ∷ lit "  @format(\"date-time\") updatedAt: string;"
    ∷ lit "}"
    ∷ []
    ∷ []

unfoldable pub typespec_search : Setup → List Text
typespec_search s =
    lit
      "@doc(\"A hybrid retrieval request. queryText drives the lexical half, queryEmbedding the vector half; supplying only one is legal and degrades to that half alone.\")"
    ∷ lit "model HybridSearchRequest {"
    ∷ (lit "  @format(\"uuid\") " ++ tenant_camel s ++ lit ": string;")
    ∷ lit "  modelKey: EmbeddingModelKey;"
    ∷ lit "  @maxLength(4096) queryText?: string | null;"
    ∷ lit "  queryEmbedding?: EmbeddingVector | null;"
    ∷ lit "  entityKinds?: EntityKind[];"
    ∷ (lit "  @minValue(1) @maxValue(4000) candidateCount?: int32 = "
        ++ candidate_count s
        ++ lit ";")
    ∷ (lit "  @minValue(1) @maxValue(200) resultCount?: int32 = " ++ result_count s ++ lit ";")
    ∷ lit "}"
    ∷ []
    ∷ lit
        "@doc(\"One fused hit. vectorRank and lexicalRank are null when that half did not retrieve the row; rrfScore is the reciprocal-rank fusion of whichever halves did.\")"
    ∷ lit "model HybridSearchHit {"
    ∷ lit "  @format(\"uuid\") id: string;"
    ∷ lit "  entityKind: EntityKind;"
    ∷ lit "  @format(\"uuid\") entityId: string;"
    ∷ lit "  titleText: string;"
    ∷ lit "  summaryText: string;"
    ∷ lit "  sourceUri?: string | null;"
    ∷ lit "  metadata: Record<unknown>;"
    ∷ lit "  modelKey: EmbeddingModelKey;"
    ∷ lit "  vectorRank?: int32 | null;"
    ∷ lit "  lexicalRank?: int32 | null;"
    ∷ lit "  rrfScore: float64;"
    ∷ lit "  @minValue(-1) @maxValue(1) cosineSimilarity?: float64 | null;"
    ∷ lit "  lexicalScore?: float64 | null;"
    ∷ lit "}"
    ∷ []

-- `typespec`.
unfoldable pub typespec : Setup → Text
unfolding unlines
typespec s = unlines (
    typespec_opening s
    ++ typespec_vector s
    ++ typespec_model s
    ++ typespec_entity s
    ++ typespec_search s)
