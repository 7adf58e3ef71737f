-- ===== src/Embeddings/JsonSchema.antt =====
-- scripts/embeddings/generate.mjs, `jsonSchema`.
pub mod Members
pub mod Models
pub mod Row
pub mod Search
use cliptown_lib_core.Prelude.{
  ℕ, false, ◌∷◌, List, ◌++◌, map, Option, none, some, if◌then◌else◌, [],
}
use cliptown_lib_core.Text.{Text, lit, text_eq, to_lower}
use cliptown_lib_core.Embeddings.{
  ExtraColumn, Setup, entity_name, extra, is_timestamp, kinds, models, ns, prefix_dims, providers,
  tenant_camel, tol, w, width,
}
use cliptown_lib_core.Embeddings.Spelling.{camel}
use cliptown_lib_core.Json.{Json, arr, bool, cons, minus, nil, num, obj, plus, str, text_array}
use cliptown_lib_core.Json.Canonical.{from_entries, members}
use cliptown_lib_core.Json.Stringify.{pretty}
use cliptown_lib_core.Embeddings.JsonSchema.Members.{
  object, put, put_all, computed, count, ref, note_or_empty, extra_property,
}
use cliptown_lib_core.Embeddings.JsonSchema.Models.{model_schema, vector_schema}
use cliptown_lib_core.Embeddings.JsonSchema.Row.{entity_schema}
use cliptown_lib_core.Embeddings.JsonSchema.Search.{request_schema, hit_schema}

-- `jsonSchema`.
unfoldable pub json_schema : Setup → Json
json_schema s = object (
    (lit "$schema", str (lit "https://json-schema.org/draft/2020-12/schema"))
    ∷ (
      lit "$id",
      str (
          lit "https://"
          ++ to_lower s.manifest.github_org
          ++ lit ".github.io/schemas/embeddings.schema.json"),
    )
    ∷ (lit "title", str (s.manifest.github_org ++ lit " embedding contracts"))
    ∷ (
      lit "description",
      str (
          lit "Generated from db/embedding-contract.json + db/org-manifest.json. Contract "
          ++ s.contract.contract_version
          ++ lit ", sha256 "
          ++ s.contract_sha
          ++ lit ". "
          ++ lit "Do not hand-edit; run scripts/embeddings/generate.mjs."),
    )
    ∷ (
      lit "$defs",
      computed (
          (
            lit "EmbeddingProvider",
            object ((lit "type", str (lit "string")) ∷ (lit "enum", text_array (providers s)) ∷ []),
          )
          ∷ (
            lit "EmbeddingModelKey",
            object (
                (lit "type", str (lit "string"))
                ∷ (lit "enum", text_array (map (λ m. m.key) (models s)))
                ∷ []),
          )
          ∷ (
            lit "EntityKind",
            object ((lit "type", str (lit "string")) ∷ (lit "enum", text_array (kinds s)) ∷ []),
          )
          ∷ (lit "EmbeddingModel", model_schema s)
          ∷ (lit "EmbeddingVector", vector_schema s)
          ∷ (entity_name s, entity_schema s)
          ∷ (lit "HybridSearchRequest", request_schema s)
          ∷ (lit "HybridSearchHit", hit_schema s)
          ∷ []),
    )
    ∷ [])

-- `JSON.stringify(jsonSchema, null, 2) + '\n'`.
unfoldable pub schema_text : Setup → Text
schema_text s = pretty 0 (json_schema s) ++ 10 ∷ []
