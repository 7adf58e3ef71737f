-- ===== src/Contracts.antt =====
-- scripts/verify-embedding-contract.mjs and scripts/verify-embedding-contract-v3.mjs: the checks of
-- the embedding contracts. The files are arguments as `readFileSync` and `JSON.parse` return them; the
-- messages of `assert` are left empty.
pub mod ModelSpace
use cliptown_lib_core.Prelude.{
  ℕ, Bool, true, false, not, ◌&&◌, List, [], ◌∷◌, ◌++◌, Option, none, some, ◌==◌, if◌then◌else◌,
  any, Result, ok, err, error, type_error, ◌>>=◌, ◌>>◌, require, for_each,
}
use cliptown_lib_core.Text.{Text, lit, includes, to_lower, is_space, is_digit}
use cliptown_lib_core.Text.Regex.{Regex, one, seq, many, char, some_of, matches}
use cliptown_lib_core.Json.{
  Json, null, num, str, arr, nil, plus, items, read, is_text, truthy?, as_text,
}

-- `value.a.b` on a value that may be `undefined`.
unfoldable pub follow : List Text → Option Json → Result (Option Json)
follow [] value = ok value
follow (key ∷ keys) none = err type_error
follow (key ∷ keys) (some value) = read key value >>= λ next. follow keys next

-- `value.includes(text)`.
unfoldable pub has_text : Text → Option Json → Result Bool
has_text text (some (arr vs)) = ok (any (λ v. is_text (some v) text) (items vs))
has_text text (some (str s)) = ok (includes s text)
has_text text _ = err type_error

-- `value === n`.
unfoldable pub is_number : Option Json → ℕ → Bool
is_number (some (num (plus m))) n = m == n
is_number _ n = false

unfoldable pub is_empty_array : Option Json → Bool
is_empty_array (some (arr nil)) = true
is_empty_array _ = false

-- `assert(test)`.
abbrev pub check : Bool → Result (Unit {0})
check test = require test []

unfoldable pub check_number : Json → List Text → ℕ → Result (Unit {0})
check_number document keys n = do value ← follow keys (some document); check (is_number value n)

unfoldable pub check_listed : Bool → Json → List Text → Text → Result (Unit {0})
check_listed wanted document keys text = do
  value ← follow keys (some document)
  found ← has_text text value
  check (if wanted then found else not found)

-- `assert.match(text, /phrase/)` and the same with the flag `i`, for a phrase in lower case.
unfoldable pub check_phrase : Text → Text → Result (Unit {0})
check_phrase text phrase = check (includes text phrase)

unfoldable pub check_any_case : Text → Text → Result (Unit {0})
check_any_case text phrase = check (includes (to_lower text) phrase)

-- Whether some part of the text matches.
unfoldable pub search : Regex → Text → Bool
search r text = matches (seq (many (one (λ c. true))) (seq r (many (one (λ c. true))))) text

unfoldable pub literal : Text → Regex → Regex
literal [] r = r
literal (c ∷ s) r = seq (char c) (literal s r)

-- `/original_dimensions[^;]+4096/is`, for a text in lower case.
unfoldable pub source_cap : Regex
source_cap =
    literal (lit "original_dimensions")
      (seq (some_of (one (λ c. not (c == b';')))) (literal (lit "409") (char b'6')))

unfoldable pub check_config : Json → Result (Unit {0})
check_config config = do
  check_number config (lit "dimensions" ∷ lit "storage" ∷ []) 4100
  check_number config (lit "dimensions" ∷ lit "maximumSource" ∷ []) 4096
  padding ← follow (lit "dimensions" ∷ lit "padding" ∷ []) (some config)
  check (is_text padding (lit "trailing-zero"))
  authorities ← follow (lit "externalSqlAuthorities" ∷ []) (some config)
  check (is_empty_array authorities)

unfoldable pub check_schema : Json → Result (Unit {0})
check_schema schema = do
  check_number schema (lit "properties" ∷ lit "storageDimensions" ∷ lit "const" ∷ []) 4100
  check_number schema (lit "properties" ∷ lit "values" ∷ lit "minItems" ∷ []) 4100
  check_number schema (lit "properties" ∷ lit "values" ∷ lit "maxItems" ∷ []) 4100
  check_listed true schema (lit "required" ∷ []) (lit "embeddingSpace")
  check_number schema
      (lit "$defs" ∷ lit "EmbeddingInput" ∷ lit "properties" ∷ lit "values" ∷ lit "maxItems" ∷ [])
      4096
  check_listed false schema (lit "properties" ∷ lit "embeddingProvider" ∷ lit "enum" ∷ [])
      (lit "anthropic")
  check_listed true schema (lit "properties" ∷ lit "generationProvider" ∷ lit "enum" ∷ [])
      (lit "anthropic")

unfoldable pub check_type_spec : Text → Result (Unit {0})
check_type_spec tsp = for_each (check_phrase tsp) (
    lit "const storageDimensions = 4100"
    ∷ lit "const maximumSourceDimensions = 4096"
    ∷ lit "Anthropic: \"anthropic\""
    ∷ [])

-- The body of the loop over the two databases.
unfoldable pub check_database : Text → Result (Unit {0})
check_database sql = do
  for_each (check_any_case sql) (
      lit "vector(4100)"
      ∷ lit "tsvector"
      ∷ lit "row level security"
      ∷ lit "notification_dedupe_key"
      ∷ [])
  check (search source_cap (to_lower sql))
  check_any_case sql (lit "embedding_space")

-- A file that the configuration names.
unfoldable pub read_named : (Text → Result Text) → List Text → Json → Result Text
read_named read_file keys config = do
  value ← follow keys (some config)
  path ← elim value [ none ↦ err type_error | some v ↦ as_text v ]
  read_file path

unfoldable pub check_databases : (Text → Result Text) → Json → Result (Unit {0})
check_databases read_file config = do
  sql ← read_named read_file (lit "databaseFirst" ∷ lit "postgres" ∷ []) config
  cockroach ← read_named read_file (lit "databaseFirst" ∷ lit "cockroachdb" ∷ []) config
  query ← read_named read_file (lit "databaseFirst" ∷ lit "postgresQuery" ∷ []) config
  other ← read_named read_file (lit "databaseFirst" ∷ lit "cockroachdbQuery" ∷ []) config
  for_each check_database (sql ∷ cockroach ∷ [])
  check_phrase sql (lit "binary_quantize(embedding)::bit(4100)")
  check_any_case sql (lit "using hnsw")
  check_any_case cockroach (lit "create vector index")
  check_phrase cockroach (lit "tenant_id, embedding_space, purpose, embedding")
  check_any_case query (lit "exact_rerank")
  check_any_case query (lit "embedding_space = $6::text")
  check_any_case other (lit "tenant_id = $1::uuid")
  check_any_case other (lit "embedding_space = $6::string")

unfoldable pub check_rust : (Text → Result Text) → Json → Result (Unit {0})
check_rust read_file config = do
  rust ← read_named read_file (lit "codeFirst" ∷ lit "rustModel" ∷ []) config
  check_phrase rust (lit "EMBEDDING_STORAGE_DIMENSIONS: usize = 4100")
  check_phrase rust (lit "MAXIMUM_SOURCE_DIMENSIONS: usize = 4096")

-- The block of a condition on a member that may be absent.
unfoldable pub if_named : Json → List Text → Result (Unit {0}) → Result (Unit {0})
if_named config keys block = do
  value ← follow keys (some config)
  if truthy? value then block else ok tt

-- The whole of verify-embedding-contract.mjs.
unfoldable pub verify_contract :
    (Text → Result Text) → (config schema : Json) → Text → Result (Unit {0})
verify_contract read_file config schema tsp = do
  check_config config
  check_schema schema
  check_type_spec tsp
  if_named config (lit "databaseFirst" ∷ lit "postgres" ∷ []) (check_databases read_file config)
  if_named config (lit "codeFirst" ∷ lit "rustModel" ∷ []) (check_rust read_file config)
