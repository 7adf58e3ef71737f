-- ===== src/Embeddings/TypeScript.antt =====
-- scripts/embeddings/generate.mjs, `ts`.
use cliptown_lib_core.Prelude.{◌∷◌, List, ◌++◌, map, []}
use cliptown_lib_core.Text.{Text, concat, digits, join, lit}
use cliptown_lib_core.Json.Stringify.{bool_text}
use cliptown_lib_core.Embeddings.{
  EmbeddingModel, Setup, kinds, models, prefix_dims, providers, rrf_k, tol, w,
}
use cliptown_lib_core.Embeddings.Spelling.{quoted, unlines}

unfoldable pub ts_providers : Setup → Text
ts_providers s = join (lit " | ") (map quoted (providers s))

unfoldable pub ts_keys : Setup → Text
ts_keys s = join (lit "\n") (map (λ m. lit "  | '" ++ m.key ++ lit "'") (models s))

unfoldable pub ts_kinds : Setup → Text
ts_kinds s = join (lit "\n") (map (λ k. lit "  | '" ++ k ++ lit "'") (kinds s))

unfoldable pub listed_kinds : Setup → Text
listed_kinds s = join (lit "\n") (map (λ k. lit "  '" ++ k ++ lit "',") (kinds s))

unfoldable pub ts_row : EmbeddingModel → Text
ts_row m = concat (
    lit "  { key: '"
    ∷ m.key
    ∷ lit "', provider: '"
    ∷ m.provider
    ∷ lit "', modelName: '"
    ∷ m.model_name
    ∷ lit "', modelVersion: '"
    ∷ m.model_version
    ∷ lit "', nativeDims: "
    ∷ digits m.native_dims
    ∷ lit ", mrl: "
    ∷ bool_text m.mrl
    ∷ lit ", normalizedByProvider: "
    ∷ bool_text m.normalized_by_provider
    ∷ lit ", family: '"
    ∷ m.family
    ∷ lit "' },"
    ∷ [])

unfoldable pub ts_rows : Setup → Text
ts_rows s = join (lit "\n") (map ts_row (models s))

unfoldable pub ts_constants : Setup → List Text
ts_constants s =
    lit "// GENERATED FILE - do not edit by hand."
    ∷ lit "// Regenerate: node scripts/embeddings/generate.mjs"
    ∷ (lit "// Contract: "
        ++ s.contract.contract
        ++ lit " "
        ++ s.contract.contract_version
        ++ lit " (sha256 "
        ++ s.contract_sha
        ++ lit ")")
    ∷ []
    ∷ (lit "export const EMBEDDING_WIDTH = " ++ w s ++ lit " as const;")
    ∷ (lit "export const EMBEDDING_PREFIX_WIDTH = " ++ prefix_dims ++ lit " as const;")
    ∷ (lit "export const NORM_TOLERANCE = " ++ tol s ++ lit " as const;")
    ∷ (lit "export const RRF_K = " ++ rrf_k s ++ lit " as const;")
    ∷ []
    ∷ (lit "export type EmbeddingProvider = " ++ ts_providers s ++ lit ";")
    ∷ lit "export type EmbeddingModelKey ="
    ∷ (ts_keys s ++ lit ";")
    ∷ lit "export type EntityKind ="
    ∷ (ts_kinds s ++ lit ";")
    ∷ []
    ∷ []

unfoldable pub ts_registry : Setup → List Text
ts_registry s =
    lit "export interface RegisteredModel {"
    ∷ lit "  readonly key: EmbeddingModelKey;"
    ∷ lit "  readonly provider: EmbeddingProvider;"
    ∷ lit "  readonly modelName: string;"
    ∷ lit "  readonly modelVersion: string;"
    ∷ lit "  readonly nativeDims: number;"
    ∷ lit "  /** Matryoshka-trained: a prefix approximates the whole vector. */"
    ∷ lit "  readonly mrl: boolean;"
    ∷ lit "  /** False means the caller must L2-normalize before insert. */"
    ∷ lit "  readonly normalizedByProvider: boolean;"
    ∷ lit "  readonly family: string;"
    ∷ lit "}"
    ∷ []
    ∷ lit "export const REGISTERED_MODELS: readonly RegisteredModel[] = ["
    ∷ ts_rows s
    ∷ lit "];"
    ∷ []
    ∷ lit "const BY_KEY = new Map(REGISTERED_MODELS.map((m) => [m.key, m]));"
    ∷ []
    ∷ lit
        "export const registeredModel = (key: string): RegisteredModel | undefined => BY_KEY.get(key as EmbeddingModelKey);"
    ∷ []
    ∷ []

unfoldable pub ts_results : List Text
ts_results =
    lit "/**"
    ∷ (lit " * Eligible for the halfvec("
        ++ prefix_dims
        ++ lit ") prefix ANN index. A non-Matryoshka model is")
    ∷ lit " * never eligible: a prefix of it is an arbitrary coordinate subset rather than a"
    ∷ lit " * low-dimensional approximation."
    ∷ lit " */"
    ∷ lit
        "export const mrlPrefixValid = (m: RegisteredModel): boolean => m.mrl && m.nativeDims >= EMBEDDING_PREFIX_WIDTH;"
    ∷ []
    ∷ lit "export type PrepareEmbeddingError ="
    ∷ lit "  | { kind: 'unknown-model'; modelKey: string }"
    ∷ lit "  | { kind: 'width-exceeds-native'; got: number; native: number }"
    ∷ lit "  | { kind: 'width-exceeds-canonical'; got: number }"
    ∷ lit "  | { kind: 'zero-vector' };"
    ∷ []
    ∷ lit "export type PrepareEmbeddingResult ="
    ∷ lit "  | { ok: true; embedding: Float32Array }"
    ∷ lit "  | { ok: false; error: PrepareEmbeddingError };"
    ∷ []
    ∷ []

unfoldable pub ts_prepare : Setup → List Text
ts_prepare s =
    lit "/**"
    ∷ (lit " * L2-normalize, then right zero-pad to "
        ++ w s
        ++ lit ". This is the only supported way to")
    ∷ lit " * build a value for the embedding column: the database CHECK constraints assert"
    ∷ lit " * exactly these two properties and will reject anything else."
    ∷ lit " *"
    ∷ lit " * Appending zeros leaves the norm - and therefore the cosine similarity and the"
    ∷ (lit " * ranking - unchanged, which is what makes a "
        ++ lit "1536"
        ++ lit "-component OpenAI vector safe to")
    ∷ (lit " * store in a "
        ++ w s
        ++ lit "-wide slot alongside a "
        ++ lit "4096"
        ++ lit "-component Qwen3 vector.")
    ∷ lit " */"
    ∷ lit
        "export function prepareEmbedding(modelKey: string, raw: ArrayLike<number>): PrepareEmbeddingResult {"
    ∷ lit "  const model = registeredModel(modelKey);"
    ∷ lit "  if (!model) return { ok: false, error: { kind: 'unknown-model', modelKey } };"
    ∷ lit
        "  if (raw.length > EMBEDDING_WIDTH) return { ok: false, error: { kind: 'width-exceeds-canonical', got: raw.length } };"
    ∷ lit "  if (raw.length > model.nativeDims) {"
    ∷ lit
        "    return { ok: false, error: { kind: 'width-exceeds-native', got: raw.length, native: model.nativeDims } };"
    ∷ lit "  }"
    ∷ []
    ∷ lit "  let sum = 0;"
    ∷ lit "  for (let i = 0; i < raw.length; i += 1) sum += raw[i] * raw[i];"
    ∷ lit "  const norm = Math.sqrt(sum);"
    ∷ lit
        "  if (!(norm > 0) || !Number.isFinite(norm)) return { ok: false, error: { kind: 'zero-vector' } };"
    ∷ []
    ∷ lit "  const out = new Float32Array(EMBEDDING_WIDTH);"
    ∷ lit "  for (let i = 0; i < raw.length; i += 1) out[i] = raw[i] / norm;"
    ∷ lit "  return { ok: true, embedding: out };"
    ∷ lit "}"
    ∷ []
    ∷ []

unfoldable pub ts_fusion : Setup → List Text
ts_fusion s =
    lit "/** Reciprocal rank fusion of the lexical and vector halves. */"
    ∷ lit "export const rrf = (vectorRank: number | null, lexicalRank: number | null): number =>"
    ∷ lit
        "  (vectorRank === null ? 0 : 1 / (RRF_K + vectorRank)) + (lexicalRank === null ? 0 : 1 / (RRF_K + lexicalRank));"
    ∷ []
    ∷ lit "export const ENTITY_KINDS: readonly EntityKind[] = ["
    ∷ listed_kinds s
    ∷ lit "];"
    ∷ []

-- `ts`.
unfoldable pub ts : Setup → Text
unfolding unlines
ts s = unlines (ts_constants s ++ ts_registry s ++ ts_results ++ ts_prepare s ++ ts_fusion s)
