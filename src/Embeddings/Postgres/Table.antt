-- ===== src/Embeddings/Postgres/Table.antt =====
-- scripts/embeddings/generate.mjs, the PostgreSQL schema behind the sentinel: the table of embeddings.
use cliptown_lib_core.Prelude.{
  ◌+◌, ◌*◌, ◌∷◌, List, ◌++◌, map, Option, none, some, if◌then◌else◌, [],
}
use cliptown_lib_core.Text.{Text, digits, is_blank, join, lit}
use cliptown_lib_core.Embeddings.{
  ExtraColumn, Setup, extra, kinds, ns, p, prefix_dims, qualified, tenant, tol, w, width,
}
use cliptown_lib_core.Embeddings.Spelling.{ending, gap, wrap_list}
use cliptown_lib_core.Embeddings.Postgres.Registry.{doubled_quotes}

-- `c.note ? …`.
unfoldable pub note_comment : Option Text → Text
note_comment none = []
note_comment (some note) = if is_blank note then [] else lit "  -- " ++ note

unfoldable pub extra_col : ExtraColumn → Text
extra_col c =
    lit "  "
    ++ c.name
    ++ lit " "
    ++ c.sql
    ++ (if c.not_null then lit " not null" else [])
    ++ lit ","
    ++ note_comment c.note

-- `extraColsSql`.
unfoldable pub extra_cols_sql : Setup → Text
extra_cols_sql s = join (lit "\n") (map extra_col (extra s))

unfoldable pub table_opening : Setup → List Text
table_opening s =
    lit "-- ---------------------------------------------------------------------"
    ∷ (lit "-- " ++ qualified s)
    ∷ (lit "-- " ++ s.manifest.purpose)
    ∷ lit "-- ---------------------------------------------------------------------"
    ∷ (lit "create table if not exists " ++ qualified s ++ lit " (")
    ∷ lit "  id                uuid primary key default gen_random_uuid(),"
    ∷ (lit "  " ++ tenant s ++ gap 18 (tenant s) ++ lit "uuid not null,")
    ∷ []
    ∷ lit "  entity_kind       text not null"
    ∷ (lit "                      check (entity_kind in (" ++ wrap_list (kinds s) 44 ++ lit ")),")
    ∷ lit "  entity_id         uuid not null,"
    ∷ []
    ∷ lit "  -- Model provenance. model_key is the join key to the registry; the three"
    ∷ lit "  -- parts are denormalized alongside it so a query can filter on provider or"
    ∷ lit "  -- family without a join, and so the partial indexes stay immutable."
    ∷ (lit "  model_key         text not null references "
        ++ ns s
        ++ lit ".embedding_models (model_key),")
    ∷ lit "  provider          text not null,"
    ∷ lit "  model_name        text not null,"
    ∷ lit "  model_version     text not null,"
    ∷ (lit "  native_dims       integer not null check (native_dims between 1 and "
        ++ w s
        ++ lit "),")
    ∷ lit "  mrl_prefix_valid  boolean not null default false,"
    ∷ []
    ∷ []

unfoldable pub vector_columns : Setup → List Text
vector_columns s =
    lit "  -- Canonical storage: full width, left-aligned, zero-padded, unit norm."
    ∷ (lit "  embedding         extensions.vector(" ++ w s ++ lit ") not null,")
    ∷ []
    ∷ lit "  -- Candidate-generation surface 1, universal. Sign bits of the embedding."
    ∷ lit "  -- Hamming distance over them is a coarse proxy for cosine distance on any"
    ∷ lit "  -- unit-norm vector, MRL or not. bit indexes go to 64000 dimensions, so this"
    ∷ (lit "  -- one is legal at "
        ++ w s
        ++ lit " where an index on the embedding itself is not. The")
    ∷ lit "  -- zero pad quantizes to a constant run of zero bits, adding the same"
    ∷ lit "  -- constant to every pairwise distance inside a model group - the ranking is"
    ∷ lit "  -- unaffected."
    ∷ (lit "  embedding_bits    bit(" ++ w s ++ lit ") generated always as")
    ∷ (lit "                      (extensions.binary_quantize(embedding)::bit("
        ++ w s
        ++ lit ")) stored,")
    ∷ []
    ∷ (lit "  -- Candidate-generation surface 2, MRL models only. The leading " ++ prefix_dims)
    ∷ lit "  -- components at half precision: 2056 bytes, indexable, and a far better"
    ∷ lit "  -- approximation than the bit surface - but only for models whose training"
    ∷ lit "  -- makes a prefix meaningful. The index below is partial on mrl_prefix_valid"
    ∷ lit "  -- for exactly that reason."
    ∷ (lit "  embedding_prefix  extensions.halfvec(" ++ prefix_dims ++ lit ") generated always as")
    ∷ (lit "                      (extensions.subvector(embedding, 1, "
        ++ prefix_dims
        ++ lit ")::extensions.halfvec("
        ++ prefix_dims
        ++ lit ")) stored,")
    ∷ []
    ∷ []

unfoldable pub text_columns : Setup → List Text
text_columns s =
    lit "  -- Lexical half of the hybrid query. Weighted so a human tag or title beats a"
    ∷ lit "  -- match buried in a transcript. 'simple' rather than a stemmer: these"
    ∷ lit "  -- corpora are multilingual, and a stemmer frozen into a STORED generated"
    ∷ lit "  -- column cannot be changed later without rewriting the table."
    ∷ lit "  title_text        text not null default '' check (octet_length(title_text)   <= 2048),"
    ∷ lit "  summary_text      text not null default '' check (octet_length(summary_text) <= 8192),"
    ∷ lit
        "  body_text         text not null default '' check (octet_length(body_text)    <= 65536),"
    ∷ lit "  search_document   tsvector generated always as ("
    ∷ lit
        "                        setweight(to_tsvector('simple', coalesce(title_text,   '')), 'A')"
    ∷ lit
        "                     || setweight(to_tsvector('simple', coalesce(summary_text, '')), 'B')"
    ∷ lit
        "                     || setweight(to_tsvector('simple', coalesce(body_text,    '')), 'D')"
    ∷ lit "                    ) stored,"
    ∷ []
    ∷ lit "  -- Content fingerprint of the exact text that was embedded. Lets a re-embed"
    ∷ lit "  -- pass skip unchanged rows, and gives exact-duplicate detection a cheap path"
    ∷ lit "  -- that never touches a vector."
    ∷ lit "  content_sha256    text not null check (content_sha256 ~ '^[0-9a-f]{64}$'),"
    ∷ lit "  source_uri        text check (source_uri is null or octet_length(source_uri) <= 2048),"
    ∷ lit "  metadata          jsonb not null default '{}'::jsonb,"
    ∷ ending (extra_cols_sql s)
    ∷ lit "  generated_at      timestamptz not null default now(),"
    ∷ lit "  created_at        timestamptz not null default now(),"
    ∷ lit "  updated_at        timestamptz not null default now(),"
    ∷ []
    ∷ []

unfoldable pub table_constraints : Setup → List Text
table_constraints s =
    (lit "  constraint " ++ p s ++ lit "_emb_zero_padded")
    ∷ (lit "    check (" ++ ns s ++ lit ".emb_is_zero_padded(embedding, native_dims)),")
    ∷ (lit "  constraint " ++ p s ++ lit "_emb_unit_norm")
    ∷ (lit "    check (" ++ ns s ++ lit ".emb_is_unit(embedding, " ++ tol s ++ lit ")),")
    ∷ (lit "  constraint " ++ p s ++ lit "_emb_model_key_is_derived")
    ∷ lit "    check (model_key = provider || ':' || model_name || ':' || model_version),"
    ∷ (lit "  constraint " ++ p s ++ lit "_emb_one_row_per_entity_per_model")
    ∷ (lit "    unique (" ++ tenant s ++ lit ", entity_kind, entity_id, model_key)")
    ∷ lit ");"
    ∷ []
    ∷ (lit "comment on table " ++ qualified s ++ lit " is")
    ∷ (lit "  '" ++ doubled_quotes s.manifest.purpose ++ lit "';")
    ∷ (lit "comment on column " ++ qualified s ++ lit ".embedding is")
    ∷ (lit "  'Unit-norm embedding, left-aligned and zero-padded to "
        ++ w s
        ++ lit ". Never compare across model_key.';")
    ∷ (lit "comment on column " ++ qualified s ++ lit ".embedding_bits is")
    ∷ (lit "  'Sign-bit quantization of embedding. Candidate generation surface for every model; "
        ++ w s
        ++ lit " dimensions is legal for a bit index and illegal for a vector index.';")
    ∷ (lit "comment on column " ++ qualified s ++ lit ".embedding_prefix is")
    ∷ (lit "  'Leading "
        ++ prefix_dims
        ++ lit
            " components at half precision. Only meaningful, and only indexed, for Matryoshka-trained models.';")
    ∷ []
    ∷ (lit "-- "
        ++ w s
        ++ lit " float32s is "
        ++ digits (4 * width s + 8)
        ++ lit " bytes, well past the ~8160-byte in-page tuple budget, so")
    ∷ lit "-- this column is always out of line. float32 does not compress, so EXTERNAL"
    ∷ lit "-- (out of line, uncompressed) skips pglz on every write and every detoast."
    ∷ (lit "alter table " ++ qualified s ++ lit " alter column embedding set storage external;")
    ∷ []
    ∷ []
