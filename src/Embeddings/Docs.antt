-- ===== src/Embeddings/Docs.antt =====
-- scripts/embeddings/generate.mjs, `docs`.
pub mod Retrieval
use cliptown_lib_core.Prelude.{◌+◌, ◌*◌, ◌∷◌, List, ◌++◌, map, if◌then◌else◌, []}
use cliptown_lib_core.Text.{Text, concat, digits, join, lit}
use cliptown_lib_core.Embeddings.{
  EmbeddingModel, Setup, models, p, prefix_dims, qualified, rrf_k, tenant, w, width,
}
use cliptown_lib_core.Embeddings.Spelling.{difference, unlines}
use cliptown_lib_core.Embeddings.Docs.Retrieval.{
  docs_candidates, docs_models, docs_fusion, docs_cockroach,
}

unfoldable pub model_line : Setup → EmbeddingModel → Text
model_line s m = concat (
    lit "| `"
    ∷ m.key
    ∷ lit "` | "
    ∷ digits m.native_dims
    ∷ lit " | "
    ∷ (if m.mrl then lit "yes" else lit "no")
    ∷ lit " | "
    ∷ difference (width s) m.native_dims
    ∷ lit " | "
    ∷ m.notes
    ∷ lit " |"
    ∷ [])

-- `modelTable`.
unfoldable pub model_table : Setup → Text
model_table s = join (lit "\n") (map (model_line s) (models s))

unfoldable pub docs_opening : Setup → List Text
docs_opening s =
    lit "<!-- GENERATED FILE - do not edit by hand."
    ∷ lit "     Regenerate: node scripts/embeddings/generate.mjs"
    ∷ (lit "     Contract: "
        ++ s.contract.contract
        ++ lit " "
        ++ s.contract.contract_version
        ++ lit " (sha256 "
        ++ s.contract_sha
        ++ lit ") -->")
    ∷ []
    ∷ (lit "# Embeddings in " ++ s.manifest.github_org)
    ∷ []
    ∷ s.manifest.purpose
    ∷ []
    ∷ (lit "Table: `"
        ++ qualified s
        ++ lit "` · tenant column: `"
        ++ tenant s
        ++ lit "` · owning repo: this one.")
    ∷ []
    ∷ lit "## Where the SQL lives, and why it lives here"
    ∷ []
    ∷ lit "The DDL and the migrations for this table are in **this repository**, under"
    ∷ lit "`db/schema/` and `db/migrations/`. They are not assembled from"
    ∷ lit "`ORESoftware/k8s-libs-and-shared-defs`. The org that owns the data owns the"
    ∷ lit "schema that shapes it; the central repo keeps the federation boundary"
    ∷ lit "invariants (no cross-org foreign keys, one owner per table) and nothing else."
    ∷ []
    ∷ lit "`dpm` remains the only tool that applies any of it, apply still requires human"
    ∷ lit "review, and no service runs DDL at boot."
    ∷ []
    ∷ []

unfoldable pub docs_width : Setup → List Text
docs_width s =
    (lit "## The " ++ w s ++ lit "-dimension decision")
    ∷ []
    ∷ (lit "Every embedding is stored in a `vector("
        ++ w s
        ++ lit ")` column: left-aligned to the model's")
    ∷ lit "native width, zero on every index past it, and L2-normalized to unit length."
    ∷ []
    ∷ (w s ++ lit " is a fixed superset. It clears the widest models in use - Qwen3-Embedding-8B,")
    ∷ lit "NVIDIA NV-Embed-v2, BAAI bge-en-icl and e5-mistral-7b-instruct are all 4096 - with"
    ∷ lit "four slots of headroom, so adding a model does not mean a table rewrite."
    ∷ []
    ∷ lit "The pad is free in the only sense that matters for retrieval: appending zeros"
    ∷ lit "changes neither the L2 norm nor the cosine similarity, so an OpenAI"
    ∷ (lit "`text-embedding-3-small` vector with 1536 real components and "
        ++ difference (width s) 1536
        ++ lit " zeros ranks")
    ∷ lit "exactly as it would at its native width. It costs storage, and it costs a TOAST"
    ∷ lit "read, and those are addressed below."
    ∷ []
    ∷ lit "| model | native dims | Matryoshka | zeros stored | notes |"
    ∷ lit "| --- | ---: | :---: | ---: | --- |"
    ∷ model_table s
    ∷ []
    ∷ lit "**\"Anthropic embeddings\" means Voyage.** Anthropic does not publish a"
    ∷ lit "first-party embedding model; Voyage AI is the embedding provider Anthropic"
    ∷ lit "directs customers to, so the `voyage` provider in the registry is what fills"
    ∷ lit "that slot. Registering it under its real name rather than under `anthropic`"
    ∷ lit "keeps the model key honest about what actually produced the vector."
    ∷ []
    ∷ []

unfoldable pub docs_use : Setup → List Text
docs_use s =
    lit "## Prerequisites"
    ∷ []
    ∷ lit "| component | minimum | why |"
    ∷ lit "| --- | --- | --- |"
    ∷ (lit "| pgvector | "
        ++ s.contract.pgvector
        ++ lit
            " | `halfvec`, `binary_quantize()`, `subvector()`, `l2_norm()` and the `bit_hamming_ops` / `halfvec_cosine_ops` operator classes all landed in 0.7.0. On 0.6.x this schema fails to create - the types simply are not there. |")
    ∷ (lit "| PostgreSQL | "
        ++ s.contract.postgres
        ++ lit " | STORED generated columns, `gen_random_uuid()`. |")
    ∷ lit "| pgcrypto | migration only | `digest()` when backfilling `content_sha256`. |"
    ∷ (lit "| CockroachDB | "
        ++ s.contract.cockroachdb
        ++ lit " | `VECTOR` and the C-SPANN index, plus `feature.vector_index.enabled`. |")
    ∷ []
    ∷ lit "```sql"
    ∷ lit "select extversion from pg_extension where extname = 'vector';  -- expect >= 0.7.0"
    ∷ lit "```"
    ∷ []
    ∷ lit "## Regenerating"
    ∷ []
    ∷ lit "```bash"
    ∷ lit "node scripts/embeddings/generate.mjs          # write"
    ∷ lit "node scripts/embeddings/generate.mjs --check  # CI gate; fails on drift"
    ∷ lit "node --test tests/embeddings-contract.test.mjs"
    ∷ lit "```"
    ∷ []
    ∷ lit "`db/embedding-contract.json` is vendored byte-identical into every org. Changing"
    ∷ lit "it is a fleet change: regenerate in every org, or the checksum test fails."
    ∷ []

-- `docs`.
unfoldable pub docs : Setup → Text
unfolding unlines
docs s = unlines (
    docs_opening s
    ++ docs_width s
    ++ docs_candidates s
    ++ docs_models s
    ++ docs_fusion s
    ++ docs_cockroach
    ++ docs_use s)
