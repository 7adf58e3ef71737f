-- ===== src/Embeddings/Dart.antt =====
-- scripts/embeddings/generate.mjs, `dart`.
use cliptown_lib_core.Prelude.{◌∷◌, List, ◌++◌, map, []}
use cliptown_lib_core.Text.{Text, digits, join, lit}
use cliptown_lib_core.Json.Stringify.{bool_text}
use cliptown_lib_core.Embeddings.{EmbeddingModel, Setup, models, prefix_dims, rrf_k, tol, w}
use cliptown_lib_core.Embeddings.Spelling.{unlines}
use cliptown_lib_core.Embeddings.TypeScript.{listed_kinds}

unfoldable pub dart_row : EmbeddingModel → Text
dart_row m = join (lit "\n") (
    lit "  RegisteredModel("
    ∷ (lit "    key: '" ++ m.key ++ lit "',")
    ∷ (lit "    provider: '" ++ m.provider ++ lit "',")
    ∷ (lit "    modelName: '" ++ m.model_name ++ lit "',")
    ∷ (lit "    modelVersion: '" ++ m.model_version ++ lit "',")
    ∷ (lit "    nativeDims: " ++ digits m.native_dims ++ lit ",")
    ∷ (lit "    mrl: " ++ bool_text m.mrl ++ lit ",")
    ∷ (lit "    normalizedByProvider: " ++ bool_text m.normalized_by_provider ++ lit ",")
    ∷ (lit "    family: '" ++ m.family ++ lit "',")
    ∷ lit "  ),"
    ∷ [])

unfoldable pub dart_rows : Setup → Text
dart_rows s = join (lit "\n") (map dart_row (models s))

unfoldable pub dart_constants : Setup → List Text
dart_constants s =
    lit "// GENERATED FILE - do not edit by hand."
    ∷ lit "// Regenerate: node scripts/embeddings/generate.mjs"
    ∷ (lit "// Contract: "
        ++ s.contract.contract
        ++ lit " "
        ++ s.contract.contract_version
        ++ lit " (sha256 "
        ++ s.contract_sha
        ++ lit ")")
    ∷ []
    ∷ lit "import 'dart:math' as math;"
    ∷ lit "import 'dart:typed_data';"
    ∷ []
    ∷ (lit "const int embeddingWidth = " ++ w s ++ lit ";")
    ∷ (lit "const int embeddingPrefixWidth = " ++ prefix_dims ++ lit ";")
    ∷ (lit "const double normTolerance = " ++ tol s ++ lit ";")
    ∷ (lit "const int rrfK = " ++ rrf_k s ++ lit ";")
    ∷ []
    ∷ []

unfoldable pub dart_model : List Text
dart_model =
    lit "final class RegisteredModel {"
    ∷ lit "  const RegisteredModel({"
    ∷ lit "    required this.key,"
    ∷ lit "    required this.provider,"
    ∷ lit "    required this.modelName,"
    ∷ lit "    required this.modelVersion,"
    ∷ lit "    required this.nativeDims,"
    ∷ lit "    required this.mrl,"
    ∷ lit "    required this.normalizedByProvider,"
    ∷ lit "    required this.family,"
    ∷ lit "  });"
    ∷ []
    ∷ lit "  final String key;"
    ∷ lit "  final String provider;"
    ∷ lit "  final String modelName;"
    ∷ lit "  final String modelVersion;"
    ∷ lit "  final int nativeDims;"
    ∷ []
    ∷ lit "  /// Matryoshka-trained: a prefix approximates the whole vector."
    ∷ lit "  final bool mrl;"
    ∷ []
    ∷ lit "  /// False means the caller must L2-normalize before insert."
    ∷ lit "  final bool normalizedByProvider;"
    ∷ lit "  final String family;"
    ∷ []
    ∷ (lit "  /// Eligible for the halfvec(" ++ prefix_dims ++ lit ") prefix ANN index.")
    ∷ lit "  bool get mrlPrefixValid => mrl && nativeDims >= embeddingPrefixWidth;"
    ∷ lit "}"
    ∷ []
    ∷ []

unfoldable pub dart_registry : Setup → List Text
dart_registry s =
    lit "const List<RegisteredModel> registeredModels = <RegisteredModel>["
    ∷ dart_rows s
    ∷ lit "];"
    ∷ []
    ∷ lit "final Map<String, RegisteredModel> _byKey = <String, RegisteredModel>{"
    ∷ lit "  for (final RegisteredModel m in registeredModels) m.key: m,"
    ∷ lit "};"
    ∷ []
    ∷ lit "RegisteredModel? registeredModel(String key) => _byKey[key];"
    ∷ []
    ∷ lit "const List<String> entityKinds = <String>["
    ∷ listed_kinds s
    ∷ lit "];"
    ∷ []
    ∷ []

unfoldable pub dart_results : List Text
dart_results =
    lit "sealed class PrepareEmbeddingResult {"
    ∷ lit "  const PrepareEmbeddingResult();"
    ∷ lit "}"
    ∷ []
    ∷ lit "final class PrepareEmbeddingOk extends PrepareEmbeddingResult {"
    ∷ lit "  const PrepareEmbeddingOk(this.embedding);"
    ∷ lit "  final Float32List embedding;"
    ∷ lit "}"
    ∷ []
    ∷ lit "final class PrepareEmbeddingFailure extends PrepareEmbeddingResult {"
    ∷ lit "  const PrepareEmbeddingFailure(this.reason);"
    ∷ lit "  final String reason;"
    ∷ lit "}"
    ∷ []
    ∷ []

unfoldable pub dart_prepare : List Text
dart_prepare =
    lit "/// L2-normalize, then right zero-pad to [embeddingWidth]. The zero pad leaves"
    ∷ lit "/// the norm and therefore the cosine ranking unchanged, which is what lets a"
    ∷ lit "/// 1536-component OpenAI vector share a column with a 4096-component Qwen3 one."
    ∷ lit "PrepareEmbeddingResult prepareEmbedding(String modelKey, List<double> raw) {"
    ∷ lit "  final RegisteredModel? model = registeredModel(modelKey);"
    ∷ lit "  if (model == null) return const PrepareEmbeddingFailure('unknown-model');"
    ∷ lit
        "  if (raw.length > embeddingWidth) return const PrepareEmbeddingFailure('width-exceeds-canonical');"
    ∷ lit
        "  if (raw.length > model.nativeDims) return const PrepareEmbeddingFailure('width-exceeds-native');"
    ∷ []
    ∷ lit "  double sum = 0;"
    ∷ lit "  for (final double x in raw) {"
    ∷ lit "    sum += x * x;"
    ∷ lit "  }"
    ∷ lit "  final double norm = math.sqrt(sum);"
    ∷ lit
        "  if (!(norm > 0) || !norm.isFinite) return const PrepareEmbeddingFailure('zero-vector');"
    ∷ []
    ∷ lit "  final Float32List out = Float32List(embeddingWidth);"
    ∷ lit "  for (int i = 0; i < raw.length; i++) {"
    ∷ lit "    out[i] = raw[i] / norm;"
    ∷ lit "  }"
    ∷ lit "  return PrepareEmbeddingOk(out);"
    ∷ lit "}"
    ∷ []
    ∷ []

unfoldable pub dart_fusion : List Text
dart_fusion =
    lit "/// Reciprocal rank fusion of the lexical and vector halves."
    ∷ lit "double rrf(int? vectorRank, int? lexicalRank) =>"
    ∷ lit "    (vectorRank == null ? 0 : 1 / (rrfK + vectorRank)) +"
    ∷ lit "    (lexicalRank == null ? 0 : 1 / (rrfK + lexicalRank));"
    ∷ []

-- `dart`.
unfoldable pub dart : Setup → Text
unfolding unlines
dart s = unlines (
    dart_constants s
    ++ dart_model
    ++ dart_registry s
    ++ dart_results
    ++ dart_prepare
    ++ dart_fusion)
