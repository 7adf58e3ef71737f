-- ===== src/Embeddings/JsonSchema/Row.antt =====
-- scripts/embeddings/generate.mjs, `jsonSchema`: a row of the table.
use cliptown_lib_core.Prelude.{false, ◌∷◌, ◌++◌, map, []}
use cliptown_lib_core.Text.{lit}
use cliptown_lib_core.Embeddings.{Setup, extra, tenant_camel, width}
use cliptown_lib_core.Json.{Json, bool, str, text_array}
use cliptown_lib_core.Embeddings.JsonSchema.Members.{object, computed, count, ref, extra_property}

unfoldable pub entity_schema : Setup → Json
entity_schema s = object (
    (lit "type", str (lit "object"))
    ∷ (lit "description", str s.manifest.purpose)
    ∷ (
      lit "required",
      text_array (
          lit "id"
          ∷ tenant_camel s
          ∷ lit "entityKind"
          ∷ lit "entityId"
          ∷ lit "modelKey"
          ∷ lit "provider"
          ∷ lit "modelName"
          ∷ lit "modelVersion"
          ∷ lit "nativeDims"
          ∷ lit "embedding"
          ∷ lit "contentSha256"
          ∷ lit "generatedAt"
          ∷ []),
    )
    ∷ (lit "additionalProperties", bool false)
    ∷ (
      lit "properties",
      computed (
          ((
            lit "id",
            object ((lit "type", str (lit "string")) ∷ (lit "format", str (lit "uuid")) ∷ []),
          )
            ∷ (
              tenant_camel s,
              object ((lit "type", str (lit "string")) ∷ (lit "format", str (lit "uuid")) ∷ []),
            )
            ∷ (lit "entityKind", ref (lit "#/$defs/EntityKind"))
            ∷ (
              lit "entityId",
              object ((lit "type", str (lit "string")) ∷ (lit "format", str (lit "uuid")) ∷ []),
            )
            ∷ (lit "modelKey", ref (lit "#/$defs/EmbeddingModelKey"))
            ∷ (lit "provider", ref (lit "#/$defs/EmbeddingProvider"))
            ∷ (
              lit "modelName",
              object (
                  (lit "type", str (lit "string"))
                  ∷ (lit "minLength", count 1)
                  ∷ (lit "maxLength", count 160)
                  ∷ []),
            )
            ∷ (
              lit "modelVersion",
              object (
                  (lit "type", str (lit "string"))
                  ∷ (lit "minLength", count 1)
                  ∷ (lit "maxLength", count 40)
                  ∷ []),
            )
            ∷ (
              lit "nativeDims",
              object (
                  (lit "type", str (lit "integer"))
                  ∷ (lit "minimum", count 1)
                  ∷ (lit "maximum", count (width s))
                  ∷ []),
            )
            ∷ (
              lit "mrlPrefixValid",
              object ((lit "type", str (lit "boolean")) ∷ (lit "default", bool false) ∷ []),
            )
            ∷ (lit "embedding", ref (lit "#/$defs/EmbeddingVector"))
            ∷ (
              lit "titleText",
              object (
                  (lit "type", str (lit "string"))
                  ∷ (lit "maxLength", count 2048)
                  ∷ (lit "default", str (lit ""))
                  ∷ (
                    lit "description",
                    str (lit "Weight A in the tsvector: titles, names, human tags."),
                  )
                  ∷ []),
            )
            ∷ (
              lit "summaryText",
              object (
                  (lit "type", str (lit "string"))
                  ∷ (lit "maxLength", count 8192)
                  ∷ (lit "default", str (lit ""))
                  ∷ (
                    lit "description",
                    str (lit "Weight B: human descriptions, captions, abstracts."),
                  )
                  ∷ []),
            )
            ∷ (
              lit "bodyText",
              object (
                  (lit "type", str (lit "string"))
                  ∷ (lit "maxLength", count 65536)
                  ∷ (lit "default", str (lit ""))
                  ∷ (lit "description", str (lit "Weight D: full body, transcript or OCR text."))
                  ∷ []),
            )
            ∷ (
              lit "contentSha256",
              object (
                  (lit "type", str (lit "string"))
                  ∷ (lit "pattern", str (lit "^[0-9a-f]{64}$"))
                  ∷ []),
            )
            ∷ (
              lit "sourceUri",
              object (
                  (lit "type", text_array (lit "string" ∷ lit "null" ∷ []))
                  ∷ (lit "maxLength", count 2048)
                  ∷ []),
            )
            ∷ (
              lit "metadata",
              object ((lit "type", str (lit "object")) ∷ (lit "default", object []) ∷ []),
            )
            ∷ [])
          ++ map extra_property (extra s)
          ++ ((
            lit "generatedAt",
            object ((lit "type", str (lit "string")) ∷ (lit "format", str (lit "date-time")) ∷ []),
          )
              ∷ (
                lit "createdAt",
                object
                    ((lit "type", str (lit "string")) ∷ (lit "format", str (lit "date-time")) ∷ []),
              )
              ∷ (
                lit "updatedAt",
                object
                    ((lit "type", str (lit "string")) ∷ (lit "format", str (lit "date-time")) ∷ []),
              )
              ∷ [])),
    )
    ∷ [])
