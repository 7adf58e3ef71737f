-- ===== src/Embeddings/Docs/Retrieval.antt =====
-- scripts/embeddings/generate.mjs, `docs`: candidates, fusion, and CockroachDB.
use cliptown_lib_core.Prelude.{◌+◌, ◌*◌, ◌∷◌, List, ◌++◌, []}
use cliptown_lib_core.Text.{Text, digits, lit}
use cliptown_lib_core.Embeddings.{Setup, p, prefix_dims, rrf_k, tenant, w, width}

unfoldable pub docs_candidates : Setup → List Text
docs_candidates s =
    lit "## The part that is easy to get wrong"
    ∷ []
    ∷ (lit "**pgvector cannot index a "
        ++ w s
        ++ lit "-dimension vector column.** It can store up to")
    ∷ lit "16000 dimensions, but HNSW and IVFFlat cap out at 2000 dimensions for the"
    ∷ (lit "`vector` type and 4000 for `halfvec`. A schema that declares `vector("
        ++ w s
        ++ lit ")`")
    ∷ lit "and then writes `CREATE INDEX ... USING hnsw (embedding vector_cosine_ops)`"
    ∷ lit "does not work - it fails at index creation."
    ∷ []
    ∷ lit "So there is no index on the embedding column, and retrieval is two-stage:"
    ∷ []
    ∷ (lit "1. **Candidates** come from a derived column that *is* indexable at " ++ w s ++ lit ".")
    ∷ (lit "   - `embedding_bits` — `bit("
        ++ w s
        ++ lit ")`, the sign bits of the embedding, HNSW with")
    ∷ lit "     `bit_hamming_ops`. Bit indexes go to 64000 dimensions. Hamming over sign"
    ∷ lit "     bits is a valid coarse proxy for cosine on any unit-norm vector, so this"
    ∷ lit "     surface works for **every** model. The zero pad quantizes to a constant run"
    ∷ lit "     of zero bits, which adds the same constant to every pairwise distance"
    ∷ lit "     inside a model group and leaves the ranking alone."
    ∷ (lit "   - `embedding_prefix` — `halfvec("
        ++ prefix_dims
        ++ lit ")`, the leading "
        ++ prefix_dims
        ++ lit " components,")
    ∷ lit "     HNSW with `halfvec_cosine_ops`, **partial on `mrl_prefix_valid`**. Higher"
    ∷ lit "     recall than the bit surface, but only valid for Matryoshka-trained models,"
    ∷ lit "     where the leading components genuinely carry most of the information. For a"
    ∷ lit "     non-MRL model like NV-Embed-v2 or bge-en-icl a prefix is an arbitrary"
    ∷ lit "     coordinate subset and means nothing, which is why the index is partial"
    ∷ lit "     rather than global."
    ∷ lit "2. **Exact rerank** computes `embedding <=> $query` on the candidate rows only."
    ∷ []
    ∷ (lit "That second stage is also what keeps the TOAST cost bounded. "
        ++ w s
        ++ lit " float32s is")
    ∷ (digits (4 * width s + 8)
        ++ lit " bytes, past the ~8160-byte in-page tuple budget, so the embedding column is")
    ∷ lit "always out of line; the column is set to `STORAGE EXTERNAL` because float32"
    ∷ lit "does not compress and paying pglz on every write and every detoast buys nothing."
    ∷ lit "Stage 1 reads only index pages. Stage 2 detoasts a few hundred rows."
    ∷ []
    ∷ []

unfoldable pub docs_models : Setup → List Text
docs_models s =
    lit "## Never compare across models"
    ∷ []
    ∷ lit "Two vectors from different models occupy different spaces, and padding them to"
    ∷ lit "the same width does not change that. Every generated query filters on"
    ∷ lit "`model_key` before any distance operator is evaluated, every ANN index is"
    ∷ (lit "scoped by `("
        ++ tenant s
        ++ lit ", model_key)`, and `"
        ++ p s
        ++ lit "_emb_one_row_per_entity_per_model`")
    ∷ lit "lets one entity carry a row per model without the two ever being mixed."
    ∷ []
    ∷ []

unfoldable pub docs_fusion : Setup → List Text
docs_fusion s =
    lit "## Hybrid, not vector-only"
    ∷ []
    ∷ lit "`search_document` is a stored `tsvector` built from three weighted sources -"
    ∷ lit "`title_text` (A), `summary_text` (B), `body_text` (D) - with a GIN index. The"
    ∷ lit "configuration is `simple` rather than a stemmer: these corpora are multilingual,"
    ∷ lit "and a stemmer frozen into a STORED generated column cannot be changed later"
    ∷ lit "without rewriting the table."
    ∷ []
    ∷ (lit "Lexical and vector results are combined by reciprocal rank fusion with k="
        ++ rrf_k s
        ++ lit ",")
    ∷ lit "not by adding the scores. `ts_rank_cd` and cosine distance are not on a"
    ∷ lit "comparable scale, and normalizing them against each other would invent a"
    ∷ lit "calibration nobody measured. RRF only needs the ranks."
    ∷ []
    ∷ []

unfoldable pub docs_cockroach : List Text
docs_cockroach =
    lit "## CockroachDB"
    ∷ []
    ∷ lit "`db/schema/cockroach/` carries the distributed variant. CockroachDB has no"
    ∷ lit "pgvector, so neither derived surface exists there; it has C-SPANN instead, which"
    ∷ lit "accelerates **L2 distance only**. That is survivable precisely because this"
    ∷ lit "contract mandates unit-norm vectors: for unit vectors `||a-b||² = 2 - 2·cos(a,b)`,"
    ∷ lit "so L2 ordering and cosine ordering are the same ordering. The normalization rule"
    ∷ lit "is what makes one set of rows serve both engines."
    ∷ []
    ∷ lit "Two operator notes: vector indexes are behind"
    ∷ lit "`SET CLUSTER SETTING feature.vector_index.enabled = true`, and creating one on a"
    ∷ lit "non-empty table blocks writes during backfill. The `CREATE VECTOR INDEX`"
    ∷ lit "statement is therefore left commented out in the schema file and applied"
    ∷ lit "deliberately."
    ∷ []
    ∷ []
