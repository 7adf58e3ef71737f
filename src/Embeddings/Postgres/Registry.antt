-- ===== src/Embeddings/Postgres/Registry.antt =====
-- scripts/embeddings/generate.mjs, the PostgreSQL schema up to the sentinel: the registry
-- of models.
use cliptown_lib_core.Prelude.{◌∷◌, List, ◌++◌, map, []}
use cliptown_lib_core.Text.{Text, digits, join, lit, replace_all}
use cliptown_lib_core.Json.Stringify.{bool_text}
use cliptown_lib_core.Embeddings.{
  EmbeddingModel, Setup, banner, models, ns, prefix_dims, providers, qualified, w, width,
}
use cliptown_lib_core.Embeddings.Spelling.{difference, quoted, wrap_list}

-- `'` doubled, as in a string of SQL.
unfoldable pub doubled_quotes : Text → Text
unfolding replace_all
doubled_quotes s = replace_all b'\'' (b'\'' ∷ b'\'' ∷ []) s

-- The inner function `q` of `modelSeed`.
unfoldable pub sql_text : Text → Text
sql_text x = quoted (doubled_quotes x)

unfoldable pub seed_row : EmbeddingModel → Text
seed_row m =
    lit "  ("
    ++ join (lit ", ") (
        sql_text m.key
        ∷ sql_text m.provider
        ∷ sql_text m.model_name
        ∷ sql_text m.model_version
        ∷ digits m.native_dims
        ∷ bool_text m.mrl
        ∷ bool_text m.normalized_by_provider
        ∷ sql_text m.family
        ∷ sql_text m.notes
        ∷ [])
    ++ lit ")"

-- `modelSeed`.
unfoldable pub model_seed : Setup → Text
model_seed s = join (lit ",\n") (map seed_row (models s))

unfoldable pub postgres_opening : Setup → List Text
postgres_opening s =
    banner s (
      lit "Postgres declarative schema for " ++ qualified s ++ lit " (embeddings + hybrid search).")
    ∷ (lit "-- Requires pgvector "
        ++ s.contract.pgvector
        ++ lit " and PostgreSQL "
        ++ s.contract.postgres
        ++ lit ". On pgvector 0.6.x this")
    ∷ lit "-- file does not merely run slower, it fails outright: halfvec, binary_quantize(),"
    ∷ lit "-- subvector(), l2_norm() and the bit_hamming_ops / halfvec_cosine_ops operator"
    ∷ lit "-- classes were all introduced in 0.7.0."
    ∷ lit "--   select extversion from pg_extension where extname = 'vector';"
    ∷ []
    ∷ lit "begin;"
    ∷ []
    ∷ (lit "create schema if not exists " ++ ns s ++ lit ";")
    ∷ lit "create schema if not exists extensions;"
    ∷ lit "create extension if not exists vector with schema extensions;"
    ∷ []
    ∷ (lit "set local search_path = " ++ ns s ++ lit ", extensions, public;")
    ∷ []
    ∷ lit "-- ====================================================================="
    ∷ (lit "-- Why this table is " ++ w s ++ lit " wide, and why the ANN index is not on it")
    ∷ lit "-- ====================================================================="
    ∷ (lit "-- "
        ++ w s
        ++ lit " is a fixed superset width: every model in the registry below fits,")
    ∷ lit "-- including the 4096-dimension open-weight retrieval models. A shorter"
    ∷ lit "-- model - text-embedding-3-small at 1536, say - is stored left-aligned with"
    ∷ (lit "-- "
        ++ difference (width s) 1536
        ++ lit " trailing zeros. A right zero-pad changes neither the L2 norm nor the")
    ∷ lit "-- cosine similarity, so the padded row ranks exactly as the native-width row"
    ∷ lit "-- would; the pad costs storage and nothing else."
    ∷ lit "--"
    ∷ (lit "-- pgvector can STORE "
        ++ w s
        ++ lit " dimensions but cannot INDEX them: HNSW and IVFFlat")
    ∷ lit "-- top out at 2000 dimensions for the vector type and 4000 for halfvec. So"
    ∷ lit "-- there is deliberately no index on the embedding column. Candidates come"
    ∷ lit "-- from two derived columns that ARE indexable at this width, and the exact"
    ∷ lit "-- distance is then computed on the candidate rows only. See the comments on"
    ∷ lit "-- each index below."
    ∷ []
    ∷ []

unfoldable pub model_registry : Setup → List Text
model_registry s =
    lit "-- ---------------------------------------------------------------------"
    ∷ lit "-- Model registry. Every embedding row points at exactly one row here, and"
    ∷ lit "-- no distance operator is ever evaluated across two model_key values."
    ∷ lit "-- ---------------------------------------------------------------------"
    ∷ (lit "create table if not exists " ++ ns s ++ lit ".embedding_models (")
    ∷ lit "  model_key              text primary key"
    ∷ lit "                           check (octet_length(model_key) between 3 and 200),"
    ∷ lit "  provider               text not null"
    ∷ (lit "                           check (provider in ("
        ++ wrap_list (providers s) 37
        ++ lit ")),")
    ∷ lit "  model_name             text not null"
    ∷ lit "                           check (octet_length(model_name) between 1 and 160),"
    ∷ lit "  model_version          text not null"
    ∷ lit "                           check (octet_length(model_version) between 1 and 40),"
    ∷ lit "  native_dims            integer not null"
    ∷ (lit "                           check (native_dims between 1 and " ++ w s ++ lit "),")
    ∷ lit "  mrl                    boolean not null,"
    ∷ lit "  -- A Matryoshka-trained model concentrates information in its leading"
    ∷ lit "  -- components, so a prefix of it is a real approximation of the whole. That"
    ∷ lit "  -- is not true of a non-MRL model, where a prefix is an arbitrary coordinate"
    ∷ lit "  -- subset. Only MRL models wide enough to fill the prefix are eligible."
    ∷ lit "  mrl_prefix_valid       boolean not null"
    ∷ (lit "                           generated always as (mrl and native_dims >= "
        ++ prefix_dims
        ++ lit ") stored,")
    ∷ lit "  normalized_by_provider boolean not null,"
    ∷ lit "  family                 text not null check (octet_length(family) between 1 and 80),"
    ∷ lit "  notes                  text not null default '',"
    ∷ lit "  retired_at             timestamptz,"
    ∷ lit "  constraint embedding_models_key_is_derived"
    ∷ lit "    check (model_key = provider || ':' || model_name || ':' || model_version)"
    ∷ lit ");"
    ∷ []
    ∷ []

unfoldable pub registry_rows : Setup → List Text
registry_rows s =
    (lit "comment on table " ++ ns s ++ lit ".embedding_models is")
    ∷ (lit "  'Registry of embedding models permitted in "
        ++ qualified s
        ++ lit ". Vendored from the fleet embedding contract "
        ++ s.contract.contract_version
        ++ lit "; regenerate rather than hand-editing.';")
    ∷ []
    ∷ (lit "insert into " ++ ns s ++ lit ".embedding_models")
    ∷ lit
        "  (model_key, provider, model_name, model_version, native_dims, mrl, normalized_by_provider, family, notes)"
    ∷ lit "values"
    ∷ model_seed s
    ∷ lit "on conflict (model_key) do update set"
    ∷ lit "  native_dims            = excluded.native_dims,"
    ∷ lit "  mrl                    = excluded.mrl,"
    ∷ lit "  normalized_by_provider = excluded.normalized_by_provider,"
    ∷ lit "  family                 = excluded.family,"
    ∷ lit "  notes                  = excluded.notes;"
    ∷ []
    ∷ []
