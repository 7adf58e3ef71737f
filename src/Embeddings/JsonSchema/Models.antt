-- ===== src/Embeddings/JsonSchema/Models.antt =====
-- scripts/embeddings/generate.mjs, `jsonSchema`: the registry and the vector.
use cliptown_lib_core.Prelude.{false, ◌∷◌, ◌++◌, []}
use cliptown_lib_core.Text.{lit}
use cliptown_lib_core.Embeddings.{Setup, ns, prefix_dims, tol, w, width}
use cliptown_lib_core.Json.{Json, bool, str, text_array}
use cliptown_lib_core.Embeddings.JsonSchema.Members.{object, count, ref}

unfoldable pub model_schema : Setup → Json
model_schema s = object (
    (lit "type", str (lit "object"))
    ∷ (
      lit "description",
      str (lit "One row of the model registry. Mirrors " ++ ns s ++ lit ".embedding_models."),
    )
    ∷ (
      lit "required",
      text_array (
          lit "modelKey"
          ∷ lit "provider"
          ∷ lit "modelName"
          ∷ lit "modelVersion"
          ∷ lit "nativeDims"
          ∷ lit "mrl"
          ∷ lit "normalizedByProvider"
          ∷ lit "family"
          ∷ []),
    )
    ∷ (lit "additionalProperties", bool false)
    ∷ (
      lit "properties",
      object (
          (lit "modelKey", ref (lit "#/$defs/EmbeddingModelKey"))
          ∷ (lit "provider", ref (lit "#/$defs/EmbeddingProvider"))
          ∷ (
            lit "modelName",
            object (
                (lit "type", str (lit "string"))
                ∷ (lit "minLength", count 1)
                ∷ (lit "maxLength", count 160)
                ∷ []),
          )
          ∷ (
            lit "modelVersion",
            object (
                (lit "type", str (lit "string"))
                ∷ (lit "minLength", count 1)
                ∷ (lit "maxLength", count 40)
                ∷ []),
          )
          ∷ (
            lit "nativeDims",
            object (
                (lit "type", str (lit "integer"))
                ∷ (lit "minimum", count 1)
                ∷ (lit "maximum", count (width s))
                ∷ []),
          )
          ∷ (
            lit "mrl",
            object (
                (lit "type", str (lit "boolean"))
                ∷ (
                  lit "description",
                  str (
                      lit
                        "Matryoshka-trained: a prefix of the vector is a valid approximation of the whole."),
                )
                ∷ []),
          )
          ∷ (
            lit "mrlPrefixValid",
            object (
                (lit "type", str (lit "boolean"))
                ∷ (
                  lit "description",
                  str (
                      lit "mrl AND nativeDims >= "
                      ++ prefix_dims
                      ++ lit ". Governs eligibility for the prefix ANN index."),
                )
                ∷ []),
          )
          ∷ (
            lit "normalizedByProvider",
            object (
                (lit "type", str (lit "boolean"))
                ∷ (
                  lit "description",
                  str (lit "False means the client must L2-normalize before insert."),
                )
                ∷ []),
          )
          ∷ (lit "family", object ((lit "type", str (lit "string")) ∷ []))
          ∷ (lit "notes", object ((lit "type", str (lit "string")) ∷ []))
          ∷ []),
    )
    ∷ [])

unfoldable pub vector_schema : Setup → Json
vector_schema s = object (
    (lit "type", str (lit "array"))
    ∷ (
      lit "description",
      str (
          lit "Canonical stored embedding: exactly "
          ++ w s
          ++ lit " float components, left-aligned to nativeDims, "
          ++ lit "zero on every index past nativeDims, and L2-normalized to unit length within "
          ++ tol s
          ++ lit "."),
    )
    ∷ (lit "items", object ((lit "type", str (lit "number")) ∷ []))
    ∷ (lit "minItems", count (width s))
    ∷ (lit "maxItems", count (width s))
    ∷ [])
