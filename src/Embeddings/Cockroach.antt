-- ===== src/Embeddings/Cockroach.antt =====
-- scripts/embeddings/generate.mjs, `cockroach`.
use cliptown_lib_core.Prelude.{◌∷◌, List, ◌++◌, map, if◌then◌else◌, []}
use cliptown_lib_core.Text.{Text, join, lit, text_eq}
use cliptown_lib_core.Embeddings.{
  ExtraColumn, Setup, banner, extra, kinds, ns, p, prefix_dims, qualified, tenant, w,
}
use cliptown_lib_core.Embeddings.Spelling.{gap, unlines, wrap_list}

unfoldable pub cockroach_col : ExtraColumn → Text
cockroach_col c =
    lit "  "
    ++ c.name
    ++ lit " "
    ++ (if text_eq c.sql (lit "timestamptz") then lit "timestamptz" else c.sql)
    ++ (if c.not_null then lit " not null" else [])
    ++ lit ","

unfoldable pub cockroach_extra : Setup → Text
cockroach_extra s = join (lit "\n") (map cockroach_col (extra s))

unfoldable pub cockroach_opening : Setup → List Text
cockroach_opening s =
    banner s (
      lit "CockroachDB declarative schema for "
      ++ qualified s
      ++ lit ". Distributed deployments only.")
    ∷ lit "-- CockroachDB differences that matter here, and how this file handles them:"
    ∷ lit "--"
    ∷ lit "--   * There is no pgvector extension, no halfvec, no bit_hamming_ops and no"
    ∷ lit "--     binary_quantize(). The two derived candidate surfaces from the Postgres"
    ∷ lit "--     file therefore do not exist. What CockroachDB has instead is C-SPANN,"
    ∷ lit "--     its own distributed vector index."
    ∷ lit "--   * A CockroachDB vector index accelerates L2 distance (<->) only. That is"
    ∷ lit "--     survivable precisely because the contract mandates unit-norm vectors:"
    ∷ lit "--     for unit vectors ||a-b||^2 = 2 - 2*cos(a,b), so L2 ordering and cosine"
    ∷ lit "--     ordering are the same ordering. This is the payoff for the"
    ∷ lit "--     normalization rule, not an incidental detail."
    ∷ lit "--   * Index acceleration only applies when the filter matches prefix columns,"
    ∷ (lit "--     so the vector index is declared with ("
        ++ tenant s
        ++ lit ", model_key) ahead of the")
    ∷ lit "--     vector - which is also the scoping every query must apply anyway."
    ∷ lit "--   * Vector indexes are gated behind a cluster setting and block writes while"
    ∷ lit "--     they backfill. Both are operator actions; see docs/embeddings.md."
    ∷ lit "--"
    ∷ lit "-- Enable once per cluster, out of band, before applying this file:"
    ∷ lit "--   SET CLUSTER SETTING feature.vector_index.enabled = true;"
    ∷ []
    ∷ (lit "create schema if not exists " ++ ns s ++ lit ";")
    ∷ []
    ∷ []

unfoldable pub cockroach_registry : Setup → List Text
cockroach_registry s =
    (lit "create table if not exists " ++ ns s ++ lit ".embedding_models (")
    ∷ lit "  model_key              string primary key,"
    ∷ lit "  provider               string not null,"
    ∷ lit "  model_name             string not null,"
    ∷ lit "  model_version          string not null,"
    ∷ (lit "  native_dims            int not null check (native_dims between 1 and "
        ++ w s
        ++ lit "),")
    ∷ lit "  mrl                    bool not null,"
    ∷ lit "  mrl_prefix_valid       bool not null default false,"
    ∷ lit "  normalized_by_provider bool not null,"
    ∷ lit "  family                 string not null,"
    ∷ lit "  notes                  string not null default '',"
    ∷ lit "  retired_at             timestamptz"
    ∷ lit ");"
    ∷ []
    ∷ []

unfoldable pub cockroach_table : Setup → List Text
cockroach_table s =
    (lit "create table if not exists " ++ qualified s ++ lit " (")
    ∷ lit "  id               uuid primary key default gen_random_uuid(),"
    ∷ (lit "  " ++ tenant s ++ gap 17 (tenant s) ++ lit "uuid not null,")
    ∷ []
    ∷ (lit "  entity_kind      string not null check (entity_kind in ("
        ++ wrap_list (kinds s) 43
        ++ lit ")),")
    ∷ lit "  entity_id        uuid not null,"
    ∷ []
    ∷ (lit "  model_key        string not null references "
        ++ ns s
        ++ lit ".embedding_models (model_key),")
    ∷ lit "  provider         string not null,"
    ∷ lit "  model_name       string not null,"
    ∷ lit "  model_version    string not null,"
    ∷ (lit "  native_dims      int not null check (native_dims between 1 and " ++ w s ++ lit "),")
    ∷ lit "  mrl_prefix_valid bool not null default false,"
    ∷ []
    ∷ lit "  -- Same canonical storage as Postgres: unit norm, left-aligned, zero-padded."
    ∷ (lit "  embedding        vector(" ++ w s ++ lit ") not null,")
    ∷ []
    ∷ lit "  -- CockroachDB has no generated halfvec, so the prefix - when the model is"
    ∷ lit "  -- Matryoshka and a prefix is therefore meaningful - is written by the client"
    ∷ lit "  -- rather than derived by the database. The contract test asserts it matches"
    ∷ (lit "  -- subvector(embedding, 1, "
        ++ prefix_dims
        ++ lit "); it is null for non-MRL models.")
    ∷ (lit "  embedding_prefix vector(" ++ prefix_dims ++ lit "),")
    ∷ []
    ∷ lit "  title_text       string not null default '',"
    ∷ lit "  summary_text     string not null default '',"
    ∷ lit "  body_text        string not null default '',"
    ∷ lit "  search_document  tsvector,"
    ∷ []
    ∷ lit "  content_sha256   string not null,"
    ∷ lit "  source_uri       string,"
    ∷ lit "  metadata         jsonb not null default '{}'::jsonb,"
    ∷ cockroach_extra s
    ∷ lit "  generated_at     timestamptz not null default now(),"
    ∷ lit "  created_at       timestamptz not null default now(),"
    ∷ lit "  updated_at       timestamptz not null default now(),"
    ∷ []
    ∷ (lit "  unique (" ++ tenant s ++ lit ", entity_kind, entity_id, model_key)")
    ∷ lit ");"
    ∷ []
    ∷ []

unfoldable pub cockroach_indexes : Setup → List Text
cockroach_indexes s =
    lit "-- Prefix columns first so the scoping filter can actually accelerate the scan."
    ∷ (lit "create index if not exists " ++ p s ++ lit "_emb_scope_idx")
    ∷ (lit "  on "
        ++ qualified s
        ++ lit " ("
        ++ tenant s
        ++ lit ", model_key, entity_kind, generated_at desc);")
    ∷ (lit "create index if not exists " ++ p s ++ lit "_emb_content_sha_idx")
    ∷ (lit "  on " ++ qualified s ++ lit " (" ++ tenant s ++ lit ", model_key, content_sha256);")
    ∷ (lit "create index if not exists " ++ p s ++ lit "_emb_entity_idx")
    ∷ (lit "  on " ++ qualified s ++ lit " (" ++ tenant s ++ lit ", entity_kind, entity_id);")
    ∷ (lit "create inverted index if not exists " ++ p s ++ lit "_emb_search_document_idx")
    ∷ (lit "  on " ++ qualified s ++ lit " (search_document);")
    ∷ []
    ∷ lit "-- C-SPANN. L2 only, which the unit-norm rule makes equivalent to cosine."
    ∷ lit "-- Applied separately from the table because it blocks writes during backfill."
    ∷ (lit "-- CREATE VECTOR INDEX " ++ p s ++ lit "_emb_prefix_cspann_idx")
    ∷ (lit "--   ON "
        ++ qualified s
        ++ lit " ("
        ++ tenant s
        ++ lit ", model_key, embedding_prefix vector_l2_ops);")
    ∷ []

-- `cockroach`.
unfoldable pub cockroach : Setup → Text
unfolding unlines
cockroach s =
    unlines
      (cockroach_opening s ++ cockroach_registry s ++ cockroach_table s ++ cockroach_indexes s)
