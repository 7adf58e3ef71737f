-- ===== src/Contracts/ModelSpace.antt =====
-- scripts/verify-embedding-contract-v3.mjs.
use cliptown_lib_core.Prelude.{
  Bool, false, not, List, [], ◌∷◌, ◌++◌, Option, none, some, Result, ◌>>=◌, ◌>>◌, require, for_each,
}
use cliptown_lib_core.Text.{Text, lit, includes, to_lower, is_space, text_eq}
use cliptown_lib_core.Text.Regex.{Regex, one, seq, char, some_of}
use cliptown_lib_core.Json.{Json, bool, text_array, is_text}
use cliptown_lib_core.Json.Stringify.{stringify}
use cliptown_lib_core.Contracts.{follow, has_text, is_number, search, literal}

unfoldable pub is_false : Option Json → Bool
is_false (some (bool b)) = not b
is_false _ = false

-- `JSON.stringify(value) === JSON.stringify(texts)`.
unfoldable pub same_json : Option Json → List Text → Bool
same_json none texts = false
same_json (some value) texts = text_eq (stringify value) (stringify (text_array texts))

unfoldable pub check_registry : Json → Result (Unit {0})
check_registry registry = do
  version ← follow (lit "contractVersion" ∷ []) (some registry)
  require (is_text version (lit "3.1.0")) (lit "version/storage drift")
  slots ← follow (lit "storage" ∷ lit "slots" ∷ []) (some registry)
  require (is_number slots 4100) (lit "version/storage drift")
  embedding ← follow (lit "providers" ∷ lit "embedding" ∷ []) (some registry)
  voyage ← has_text (lit "voyage") embedding
  require voyage (lit "provider provenance drift")
  anthropic ← has_text (lit "anthropic") embedding
  require (not anthropic) (lit "provider provenance drift")
  generation ← follow (lit "providers" ∷ lit "generation" ∷ []) (some registry)
  generates ← has_text (lit "anthropic") generation
  require generates (lit "generation provenance drift")
  ann ← follow (lit "database" ∷ lit "globalFilteredAnnIndex" ∷ []) (some registry)
  require (is_false ann) (lit "search policy drift")
  fusion ← follow (lit "database" ∷ lit "fusion" ∷ []) (some registry)
  require (is_text fusion (lit "reciprocal-rank-fusion")) (lit "search policy drift")
  purposes ← follow (lit "purposes" ∷ []) (some registry)
  require (same_json purposes (lit "clip_search" ∷ lit "clip_deduplication" ∷ lit "discovery" ∷ []))
      (lit "purpose drift")

abbrev pub postgres_tokens : List Text
postgres_tokens =
    lit "tenant_id,embedding_id,space_key,purpose,input_role"
    ∷ lit "current_tenant_id_v3"
    ∷ lit "embedding_is_valid_v3"
    ∷ lit "ENABLE ROW LEVEL SECURITY"
    ∷ lit "voyage"
    ∷ lit "DEFAULT FALSE"
    ∷ []

abbrev pub hybrid_tokens : List Text
hybrid_tokens =
    lit "semantic_candidates"
    ∷ lit "lexical_candidates"
    ∷ lit "UNION"
    ∷ lit "fusion_k"
    ∷ lit "SECURITY INVOKER"
    ∷ []

abbrev pub cockroach_tokens : List Text
cockroach_tokens = lit "VECTOR(4100)" ∷ lit "voyage" ∷ lit "CREATE VECTOR INDEX ..." ∷ []

-- The body of the loops over tokens.
unfoldable pub check_token : Text → Text → Text → Result (Unit {0})
check_token message text token = require (includes text token) (message ++ token)

-- `/USING\s+hnsw/i`, for a text in lower case.
unfoldable pub ann_index : Regex
ann_index = literal (lit "using") (seq (some_of (one is_space)) (literal (lit "hns") (char b'w')))

unfoldable pub check_type_spec_and_product : Text → Json → Result (Unit {0})
check_type_spec_and_product tsp schema = do
  require (includes tsp (lit "Voyage:\"voyage\"")) (lit "TypeSpec drift")
  require (includes tsp (lit "storageDimensions: 4100")) (lit "TypeSpec drift")
  product ← follow (lit "properties" ∷ lit "product" ∷ lit "const" ∷ []) (some schema)
  require (is_text product (lit "cliptown")) (lit "schema product drift")

unfoldable pub verify_model_space :
    (registry schema : Json) (tsp pg hybrid crdb : Text) → Result (Unit {0})
verify_model_space registry schema tsp pg hybrid crdb = do
  check_registry registry
  for_each (check_token (lit "postgres missing ") pg) postgres_tokens
  for_each (check_token (lit "hybrid missing ") hybrid) hybrid_tokens
  require (not (search ann_index (to_lower pg)))
      (lit "global ANN index forbidden before recall evidence")
  for_each (check_token (lit "cockroach declaration missing ") crdb) cockroach_tokens
  check_type_spec_and_product tsp schema
