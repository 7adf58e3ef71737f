-- ===== src/Embeddings/Migration/Widen.antt =====
-- scripts/embeddings/generate.mjs, `widenExisting` for an existing table: the steps up to the swap.
use cliptown_lib_core.Prelude.{◌∷◌, List, ◌++◌, []}
use cliptown_lib_core.Text.{Text, lit}
use cliptown_lib_core.Embeddings.{Setup, existing_dims, ns, prefix_dims, qualified, tol, w}

unfoldable pub widen_opening : Setup → List Text
widen_opening s =
    []
    ∷ lit "-- ---------------------------------------------------------------------"
    ∷ (lit "-- "
        ++ qualified s
        ++ lit " already exists at "
        ++ existing_dims s
        ++ lit " dimensions. Widen in place.")
    ∷ lit "--"
    ∷ lit "-- The rewrite below is not reversible in the sense that matters: the old"
    ∷ lit "-- column is dropped only after the new one is populated and validated, and"
    ∷ (lit "-- the old vectors are recoverable from the "
        ++ existing_dims s
        ++ lit "-dimension prefix of the new")
    ∷ lit "-- ones, exactly, because the pad is zeros. Nothing is lost."
    ∷ lit "-- ---------------------------------------------------------------------"
    ∷ []
    ∷ lit "-- 1. Old ANN index first: it is defined on the column being replaced, and at"
    ∷ (lit "--    "
        ++ existing_dims s
        ++ lit " dimensions it was legal. Its replacement is a different index on a")
    ∷ lit "--    different column, created at the end."
    ∷ (lit "drop index if exists " ++ ns s ++ lit ".entity_embeddings_vector_idx;")
    ∷ []
    ∷ lit "-- 2. Add the widened column beside the old one."
    ∷ (lit "alter table " ++ qualified s)
    ∷ (lit "  add column if not exists embedding_v2 extensions.vector(" ++ w s ++ lit ");")
    ∷ []
    ∷ lit "-- 3. Backfill. Zero-pad preserves norm, so this is value-preserving; the only"
    ∷ lit "--    row that can fail is one that was not unit-norm to begin with, which the"
    ∷ lit "--    validate step below will surface rather than hide."
    ∷ (lit "update " ++ qualified s)
    ∷ (lit "   set embedding_v2 = " ++ ns s ++ lit ".emb_pad(")
    ∷ (lit "         case when abs(extensions.l2_norm(embedding) - 1) <= " ++ tol s)
    ∷ lit "              then embedding"
    ∷ lit "              else extensions.l2_normalize(embedding)"
    ∷ lit "         end)"
    ∷ lit " where embedding_v2 is null;"
    ∷ []
    ∷ []

unfoldable pub widen_provenance : Setup → List Text
widen_provenance s =
    lit "-- 4. Provenance columns. Existing rows carry model_name/model_version already;"
    ∷ lit "--    derive the rest from them rather than guessing."
    ∷ (lit "alter table " ++ qualified s)
    ∷ lit "  add column if not exists model_key        text,"
    ∷ lit "  add column if not exists provider         text,"
    ∷ lit "  add column if not exists native_dims      integer,"
    ∷ lit "  add column if not exists mrl_prefix_valid boolean not null default false,"
    ∷ lit "  add column if not exists title_text       text not null default '',"
    ∷ lit "  add column if not exists summary_text     text not null default '',"
    ∷ lit "  add column if not exists body_text        text not null default '',"
    ∷ lit "  add column if not exists content_sha256   text,"
    ∷ lit "  add column if not exists source_uri       text,"
    ∷ lit "  add column if not exists metadata         jsonb not null default '{}'::jsonb,"
    ∷ lit "  add column if not exists created_at       timestamptz not null default now(),"
    ∷ lit "  add column if not exists updated_at       timestamptz not null default now();"
    ∷ []
    ∷ (lit "update " ++ qualified s ++ lit " e")
    ∷ lit "   set provider         = m.provider,"
    ∷ lit "       model_key        = m.model_key,"
    ∷ lit "       native_dims      = coalesce(e.native_dims, m.native_dims),"
    ∷ lit "       mrl_prefix_valid = m.mrl_prefix_valid"
    ∷ (lit "  from " ++ ns s ++ lit ".embedding_models m")
    ∷ lit " where m.model_name = e.model_name"
    ∷ lit "   and m.model_version = e.model_version"
    ∷ lit "   and e.model_key is distinct from m.model_key;"
    ∷ []
    ∷ lit "-- Rows whose model is not in the registry get the ada-002 default only if"
    ∷ lit "-- their width matches it; anything else is left null and blocks the not-null"
    ∷ lit "-- step below on purpose, so an unknown model is a review conversation rather"
    ∷ lit "-- than a silent relabel."
    ∷ (lit "update " ++ qualified s)
    ∷ lit "   set model_key   = 'openai:text-embedding-ada-002:2',"
    ∷ lit "       provider    = 'openai',"
    ∷ (lit "       native_dims = " ++ existing_dims s)
    ∷ lit " where model_key is null"
    ∷ lit "   and model_name = 'text-embedding-ada-002';"
    ∷ []
    ∷ lit "-- The pre-existing search_text column becomes the weighted body_text."
    ∷ (lit "update " ++ qualified s)
    ∷ lit "   set body_text = coalesce(search_text, '')"
    ∷ lit " where body_text = '' and coalesce(search_text, '') <> '';"
    ∷ []
    ∷ (lit "update " ++ qualified s)
    ∷ lit "   set content_sha256 = encode(digest(coalesce(search_text, ''), 'sha256'), 'hex')"
    ∷ lit " where content_sha256 is null;"
    ∷ []
    ∷ []

unfoldable pub widen_swap : Setup → List Text
widen_swap s =
    lit "-- 5. Swap. The old search_document is generated FROM the old search_text and the"
    ∷ lit "--    old embedding is the narrow column; both go, and both come back below in"
    ∷ lit "--    their new form."
    ∷ (lit "alter table " ++ qualified s ++ lit " drop column if exists search_document;")
    ∷ (lit "alter table " ++ qualified s ++ lit " drop column if exists embedding;")
    ∷ (lit "alter table " ++ qualified s ++ lit " rename column embedding_v2 to embedding;")
    ∷ (lit "alter table " ++ qualified s ++ lit " alter column embedding set not null;")
    ∷ (lit "alter table " ++ qualified s ++ lit " alter column embedding set storage external;")
    ∷ []
    ∷ (lit "alter table " ++ qualified s)
    ∷ lit "  alter column model_key      set not null,"
    ∷ lit "  alter column provider       set not null,"
    ∷ lit "  alter column native_dims    set not null,"
    ∷ lit "  alter column content_sha256 set not null;"
    ∷ []
    ∷ lit "-- 6. The derived columns. `create table if not exists` further down is a no-op"
    ∷ lit "--    against a table that already exists, so an existing deployment gets these"
    ∷ lit "--    here or not at all - this is the step a naive widening forgets."
    ∷ (lit "alter table " ++ qualified s)
    ∷ (lit "  add column if not exists embedding_bits bit(" ++ w s ++ lit ") generated always as")
    ∷ (lit "    (extensions.binary_quantize(embedding)::bit(" ++ w s ++ lit ")) stored,")
    ∷ (lit "  add column if not exists embedding_prefix extensions.halfvec("
        ++ prefix_dims
        ++ lit ") generated always as")
    ∷ (lit "    (extensions.subvector(embedding, 1, "
        ++ prefix_dims
        ++ lit ")::extensions.halfvec("
        ++ prefix_dims
        ++ lit ")) stored,")
    ∷ lit "  add column if not exists search_document tsvector generated always as ("
    ∷ lit "      setweight(to_tsvector('simple', coalesce(title_text,   '')), 'A')"
    ∷ lit "   || setweight(to_tsvector('simple', coalesce(summary_text, '')), 'B')"
    ∷ lit "   || setweight(to_tsvector('simple', coalesce(body_text,    '')), 'D')"
    ∷ lit "  ) stored;"
    ∷ []
    ∷ []
