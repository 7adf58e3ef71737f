-- ===== src/Embeddings/TypeSpec/Enums.antt =====
-- scripts/embeddings/generate.mjs, `typespec`: the opening and the enumerations.
use cliptown_lib_core.Prelude.{◌∷◌, List, ◌++◌, map, []}
use cliptown_lib_core.Text.{Text, join, lit}
use cliptown_lib_core.Embeddings.{Setup, kinds, models, plain_org, providers}
use cliptown_lib_core.Embeddings.Spelling.{pascal, unlines}

-- `tspEnum`.
unfoldable pub tsp_enum : Text → List Text → Text → Text
tsp_enum name values doc = unlines (
    (lit "@doc(\"" ++ doc ++ lit "\")")
    ∷ (lit "union " ++ name ++ lit " {")
    ∷ join (lit "\n") (map (λ v. lit "  \"" ++ v ++ lit "\",") values)
    ∷ lit "}"
    ∷ [])

unfoldable pub tsp_providers : Setup → Text
tsp_providers s = tsp_enum (lit "EmbeddingProvider") (providers s) (
    lit
      "Embedding provider. Anthropic ships no first-party embedding model; the voyage provider is what \"Anthropic embeddings\" means in our code.")

unfoldable pub tsp_keys : Setup → Text
tsp_keys s =
    tsp_enum (lit "EmbeddingModelKey") (map (λ m. m.key) (models s))
      (lit "provider:modelName:modelVersion. Two rows may only be compared when this matches.")

unfoldable pub tsp_kinds : Setup → Text
tsp_kinds s =
    tsp_enum (lit "EntityKind") (kinds s)
      (lit "What the embedded row describes in " ++ s.manifest.github_org ++ lit ".")

unfoldable pub typespec_opening : Setup → List Text
typespec_opening s =
    lit "// GENERATED FILE - do not edit by hand."
    ∷ lit "// Regenerate: node scripts/embeddings/generate.mjs"
    ∷ (lit "// Contract: "
        ++ s.contract.contract
        ++ lit " "
        ++ s.contract.contract_version
        ++ lit " (sha256 "
        ++ s.contract_sha
        ++ lit ")")
    ∷ lit "//"
    ∷ lit "// TypeSpec is the interface-level statement of the same contract the SQL in"
    ∷ lit "// db/schema enforces at the storage level. When they disagree, the SQL wins and"
    ∷ lit "// this file is stale - the generator is what keeps them from disagreeing."
    ∷ []
    ∷ lit "import \"@typespec/json-schema\";"
    ∷ lit "using TypeSpec.JsonSchema;"
    ∷ []
    ∷ lit "@jsonSchema"
    ∷ (lit "namespace " ++ pascal (plain_org s) ++ lit ".Embeddings;")
    ∷ []
    ∷ tsp_providers s
    ∷ tsp_keys s
    ∷ tsp_kinds s
    ∷ []
    ∷ []
