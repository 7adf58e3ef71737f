-- ===== src/Embeddings/JsonSchema/Search.antt =====
-- scripts/embeddings/generate.mjs, `jsonSchema`: the hybrid search.
use cliptown_lib_core.Prelude.{false, ◌∷◌, []}
use cliptown_lib_core.Text.{lit}
use cliptown_lib_core.Embeddings.{Setup, tenant_camel}
use cliptown_lib_core.Json.{Json, arr, bool, cons, minus, nil, num, str, text_array}
use cliptown_lib_core.Embeddings.JsonSchema.Members.{object, computed, count, ref}

unfoldable pub request_schema : Setup → Json
request_schema s = object (
    (lit "type", str (lit "object"))
    ∷ (lit "required", text_array (tenant_camel s ∷ lit "modelKey" ∷ []))
    ∷ (lit "additionalProperties", bool false)
    ∷ (
      lit "properties",
      computed (
          (
            tenant_camel s,
            object ((lit "type", str (lit "string")) ∷ (lit "format", str (lit "uuid")) ∷ []),
          )
          ∷ (lit "modelKey", ref (lit "#/$defs/EmbeddingModelKey"))
          ∷ (
            lit "queryText",
            object (
                (lit "type", text_array (lit "string" ∷ lit "null" ∷ []))
                ∷ (lit "maxLength", count 4096)
                ∷ []),
          )
          ∷ (
            lit "queryEmbedding",
            object (
                (
                  lit "oneOf",
                  arr (
                      cons (ref (lit "#/$defs/EmbeddingVector"))
                        (cons (object ((lit "type", str (lit "null")) ∷ [])) (nil))),
                )
                ∷ []),
          )
          ∷ (
            lit "entityKinds",
            object (
                (lit "type", str (lit "array"))
                ∷ (lit "items", ref (lit "#/$defs/EntityKind"))
                ∷ (lit "default", arr (nil))
                ∷ []),
          )
          ∷ (
            lit "candidateCount",
            object (
                (lit "type", str (lit "integer"))
                ∷ (lit "minimum", count 1)
                ∷ (lit "maximum", count 4000)
                ∷ (lit "default", num s.contract.default_candidate_count)
                ∷ []),
          )
          ∷ (
            lit "resultCount",
            object (
                (lit "type", str (lit "integer"))
                ∷ (lit "minimum", count 1)
                ∷ (lit "maximum", count 200)
                ∷ (lit "default", num s.contract.default_result_count)
                ∷ []),
          )
          ∷ []),
    )
    ∷ [])

unfoldable pub hit_schema : Setup → Json
hit_schema s = object (
    (lit "type", str (lit "object"))
    ∷ (
      lit "required",
      text_array (lit "id" ∷ lit "entityKind" ∷ lit "entityId" ∷ lit "rrfScore" ∷ []),
    )
    ∷ (lit "additionalProperties", bool false)
    ∷ (
      lit "properties",
      object (
          (
            lit "id",
            object ((lit "type", str (lit "string")) ∷ (lit "format", str (lit "uuid")) ∷ []),
          )
          ∷ (lit "entityKind", ref (lit "#/$defs/EntityKind"))
          ∷ (
            lit "entityId",
            object ((lit "type", str (lit "string")) ∷ (lit "format", str (lit "uuid")) ∷ []),
          )
          ∷ (lit "titleText", object ((lit "type", str (lit "string")) ∷ []))
          ∷ (lit "summaryText", object ((lit "type", str (lit "string")) ∷ []))
          ∷ (
            lit "sourceUri",
            object ((lit "type", text_array (lit "string" ∷ lit "null" ∷ [])) ∷ []),
          )
          ∷ (lit "metadata", object ((lit "type", str (lit "object")) ∷ []))
          ∷ (lit "modelKey", ref (lit "#/$defs/EmbeddingModelKey"))
          ∷ (
            lit "vectorRank",
            object ((lit "type", text_array (lit "integer" ∷ lit "null" ∷ [])) ∷ []),
          )
          ∷ (
            lit "lexicalRank",
            object ((lit "type", text_array (lit "integer" ∷ lit "null" ∷ [])) ∷ []),
          )
          ∷ (lit "rrfScore", object ((lit "type", str (lit "number")) ∷ []))
          ∷ (
            lit "cosineSimilarity",
            object (
                (lit "type", text_array (lit "number" ∷ lit "null" ∷ []))
                ∷ (lit "minimum", num (minus 0))
                ∷ (lit "maximum", count 1)
                ∷ []),
          )
          ∷ (
            lit "lexicalScore",
            object ((lit "type", text_array (lit "number" ∷ lit "null" ∷ [])) ∷ []),
          )
          ∷ []),
    )
    ∷ [])
