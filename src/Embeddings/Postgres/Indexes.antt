-- ===== src/Embeddings/Postgres/Indexes.antt =====
-- scripts/embeddings/generate.mjs, the PostgreSQL schema: the indexes and the trigger.
use cliptown_lib_core.Prelude.{◌∷◌, List, ◌++◌, []}
use cliptown_lib_core.Text.{Text, lit}
use cliptown_lib_core.Embeddings.{Setup, ns, p, qualified, tenant}

unfoldable pub candidate_indexes : Setup → List Text
candidate_indexes s =
    lit "-- ---------------------------------------------------------------------"
    ∷ lit "-- Indexes"
    ∷ lit "-- ---------------------------------------------------------------------"
    ∷ []
    ∷ lit "-- Stage 1, universal: Hamming over the sign bits."
    ∷ (lit "create index if not exists " ++ p s ++ lit "_emb_bits_hnsw_idx")
    ∷ (lit "  on " ++ qualified s ++ lit " using hnsw (embedding_bits extensions.bit_hamming_ops);")
    ∷ []
    ∷ lit "-- Stage 1, higher recall, MRL models only."
    ∷ (lit "create index if not exists " ++ p s ++ lit "_emb_prefix_hnsw_idx")
    ∷ (lit "  on "
        ++ qualified s
        ++ lit " using hnsw (embedding_prefix extensions.halfvec_cosine_ops)")
    ∷ lit "  where mrl_prefix_valid;"
    ∷ []
    ∷ lit "-- Lexical half of the hybrid query."
    ∷ (lit "create index if not exists " ++ p s ++ lit "_emb_search_document_idx")
    ∷ (lit "  on " ++ qualified s ++ lit " using gin (search_document);")
    ∷ []
    ∷ []

unfoldable pub lookup_indexes : Setup → List Text
lookup_indexes s =
    lit "-- Every vector read is scoped by tenant and model before a distance operator"
    ∷ lit "-- is applied; this is the index that makes that scoping cheap."
    ∷ (lit "create index if not exists " ++ p s ++ lit "_emb_scope_idx")
    ∷ (lit "  on "
        ++ qualified s
        ++ lit " ("
        ++ tenant s
        ++ lit ", model_key, entity_kind, generated_at desc);")
    ∷ []
    ∷ lit "-- Exact-duplicate short circuit: identical text under the same model."
    ∷ (lit "create index if not exists " ++ p s ++ lit "_emb_content_sha_idx")
    ∷ (lit "  on " ++ qualified s ++ lit " (" ++ tenant s ++ lit ", model_key, content_sha256);")
    ∷ []
    ∷ lit "-- Reverse lookup from the owning entity, for re-embed and delete cascades."
    ∷ (lit "create index if not exists " ++ p s ++ lit "_emb_entity_idx")
    ∷ (lit "  on " ++ qualified s ++ lit " (" ++ tenant s ++ lit ", entity_kind, entity_id);")
    ∷ []
    ∷ (lit "create index if not exists " ++ p s ++ lit "_emb_metadata_idx")
    ∷ (lit "  on " ++ qualified s ++ lit " using gin (metadata jsonb_path_ops);")
    ∷ []
    ∷ []

unfoldable pub touch_trigger : Setup → List Text
touch_trigger s =
    lit "-- ---------------------------------------------------------------------"
    ∷ lit "-- updated_at maintenance"
    ∷ lit "-- ---------------------------------------------------------------------"
    ∷ (lit "create or replace function " ++ ns s ++ lit "." ++ p s ++ lit "_emb_touch_updated_at()")
    ∷ lit "  returns trigger language plpgsql as $$"
    ∷ lit "  begin"
    ∷ lit "    new.updated_at := now();"
    ∷ lit "    return new;"
    ∷ lit "  end"
    ∷ lit "  $$;"
    ∷ []
    ∷ (lit "drop trigger if exists "
        ++ p s
        ++ lit "_emb_touch_updated_at on "
        ++ qualified s
        ++ lit ";")
    ∷ (lit "create trigger " ++ p s ++ lit "_emb_touch_updated_at")
    ∷ (lit "  before update on " ++ qualified s)
    ∷ (lit "  for each row execute function "
        ++ ns s
        ++ lit "."
        ++ p s
        ++ lit "_emb_touch_updated_at();")
    ∷ []

unfoldable pub commit_lines : List Text
commit_lines = [] ∷ lit "commit;" ∷ []
