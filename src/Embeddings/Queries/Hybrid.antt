-- ===== src/Embeddings/Queries/Hybrid.antt =====
-- scripts/embeddings/generate.mjs, the header of a query, and `hybridSearch`.
use cliptown_lib_core.Prelude.{ℕ, suc, ◌∷◌, List, ◌++◌, []}
use cliptown_lib_core.Text.{Text, digits, join, lit}
use cliptown_lib_core.Embeddings.{
  Setup, banner, candidate_count, prefix_dims, qualified, result_count, rrf_k, tenant, w,
}
use cliptown_lib_core.Embeddings.Spelling.{unlines}

-- `binds.map((b, i) => …)`, from a number on.
unfoldable pub bind_lines : ℕ → List Text → List Text
unfolding digits lit
bind_lines i [] = []
bind_lines i (b ∷ bs) = (lit "--   $" ++ digits i ++ lit "  " ++ b) ∷ bind_lines (suc i) bs

-- `queryHeader`.
unfoldable pub query_header : Setup → Text → List Text → Text
unfolding banner bind_lines join unlines lit
query_header s title binds = unlines (
    banner s title
    ∷ lit "-- Bind parameters:"
    ∷ join (lit "\n") (bind_lines 1 binds)
    ∷ lit "--"
    ∷ lit "-- Requires search_path to include the extensions schema, or the caller must"
    ∷ lit "-- schema-qualify the distance operators."
    ∷ [])

unfoldable pub hybrid_title : Setup → Text
hybrid_title s =
    query_header s
      (lit "Hybrid retrieval over "
        ++ qualified s
        ++ lit ": lexical + vector, fused by reciprocal rank.")
      ((tenant s ++ lit " (uuid)")
        ∷ lit "model_key (text) - the model the query vector came from; never mixed"
        ∷ (lit "query embedding (vector(" ++ w s ++ lit "), unit norm, zero-padded)")
        ∷ lit "query text (text) - websearch syntax"
        ∷ (lit "candidate count (int) - stage-1 fan-out, contract default " ++ candidate_count s)
        ∷ (lit "result count (int) - contract default " ++ result_count s)
        ∷ lit "entity kinds (text[]) - null or empty means all kinds"
        ∷ [])

unfoldable pub hybrid_opening : Setup → List Text
hybrid_opening s =
    hybrid_title s
    ∷ lit "-- Stage 1a: vector candidates. Sourced from the prefix index when the model is"
    ∷ (lit "-- Matryoshka, and from the bit index otherwise. Both are indexable at " ++ w s)
    ∷ lit "-- dimensions; the embedding column itself is not."
    ∷ lit "-- Stage 1b: lexical candidates from the GIN index."
    ∷ lit "-- Stage 2:  exact cosine on the union, which is the only place the full-width"
    ∷ lit "--           vector is detoasted - a few hundred rows, not the table."
    ∷ (lit "-- Stage 3:  reciprocal rank fusion, k="
        ++ rrf_k s
        ++ lit ". RRF is used because ts_rank_cd and")
    ∷ lit "--           cosine distance are not on a comparable scale and normalizing them"
    ∷ lit "--           against each other invents a calibration we do not have."
    ∷ []
    ∷ []

unfoldable pub hybrid_candidates : Setup → List Text
hybrid_candidates s =
    lit "with scope as ("
    ∷ lit "  select $1::uuid as tenant, $2::text as model_key,"
    ∷ lit "         $3::extensions.vector as qv, $4::text as q,"
    ∷ (lit "         greatest(coalesce($5::int, "
        ++ candidate_count s
        ++ lit "), 1) as candidates,")
    ∷ (lit "         greatest(coalesce($6::int, " ++ result_count s ++ lit "), 1) as results,")
    ∷ lit "         $7::text[] as kinds"
    ∷ lit "),"
    ∷ lit "vector_candidates as ("
    ∷ lit "  select e.id,"
    ∷ lit "         row_number() over ("
    ∷ lit "           order by case"
    ∷ lit "             when e.mrl_prefix_valid"
    ∷ (lit "               then e.embedding_prefix <=> extensions.subvector(s.qv, 1, "
        ++ prefix_dims
        ++ lit ")::extensions.halfvec("
        ++ prefix_dims
        ++ lit ")")
    ∷ (lit "             else (e.embedding_bits <~> extensions.binary_quantize(s.qv)::bit("
        ++ w s
        ++ lit "))::double precision")
    ∷ lit "           end"
    ∷ lit "         ) as rank"
    ∷ (lit "    from " ++ qualified s ++ lit " e, scope s")
    ∷ (lit "   where e." ++ tenant s ++ lit " = s.tenant")
    ∷ lit "     and e.model_key = s.model_key"
    ∷ lit "     and (s.kinds is null or cardinality(s.kinds) = 0 or e.entity_kind = any (s.kinds))"
    ∷ lit "   order by rank"
    ∷ lit "   limit (select candidates from scope)"
    ∷ lit "),"
    ∷ lit "lexical_candidates as ("
    ∷ lit "  select e.id,"
    ∷ lit "         row_number() over ("
    ∷ lit
        "           order by ts_rank_cd(e.search_document, websearch_to_tsquery('simple', s.q)) desc, e.id"
    ∷ lit "         ) as rank"
    ∷ (lit "    from " ++ qualified s ++ lit " e, scope s")
    ∷ (lit "   where e." ++ tenant s ++ lit " = s.tenant")
    ∷ lit "     and s.q is not null and s.q <> ''"
    ∷ lit "     and e.search_document @@ websearch_to_tsquery('simple', s.q)"
    ∷ []

unfoldable pub hybrid_ranking : Setup → List Text
hybrid_ranking s =
    lit "     and (s.kinds is null or cardinality(s.kinds) = 0 or e.entity_kind = any (s.kinds))"
    ∷ lit "   order by rank"
    ∷ lit "   limit (select candidates from scope)"
    ∷ lit "),"
    ∷ lit "fused as ("
    ∷ lit "  select coalesce(v.id, l.id) as id,"
    ∷ (lit "         coalesce(1.0 / ("
        ++ rrf_k s
        ++ lit " + v.rank), 0.0) + coalesce(1.0 / ("
        ++ rrf_k s
        ++ lit " + l.rank), 0.0) as rrf_score,")
    ∷ lit "         v.rank as vector_rank,"
    ∷ lit "         l.rank as lexical_rank"
    ∷ lit "    from vector_candidates v"
    ∷ lit "    full outer join lexical_candidates l on l.id = v.id"
    ∷ lit ")"
    ∷ lit "select e.id,"
    ∷ lit "       e.entity_kind,"
    ∷ lit "       e.entity_id,"
    ∷ lit "       e.title_text,"
    ∷ lit "       e.summary_text,"
    ∷ lit "       e.source_uri,"
    ∷ lit "       e.metadata,"
    ∷ lit "       e.model_key,"
    ∷ lit "       e.native_dims,"
    ∷ lit "       f.vector_rank,"
    ∷ lit "       f.lexical_rank,"
    ∷ lit "       f.rrf_score,"
    ∷ lit "       -- Exact cosine similarity at full width, on candidate rows only."
    ∷ lit "       1 - (e.embedding <=> (select qv from scope)) as cosine_similarity,"
    ∷ lit
        "       ts_rank_cd(e.search_document, websearch_to_tsquery('simple', (select q from scope))) as lexical_score"
    ∷ lit "  from fused f"
    ∷ (lit "  join " ++ qualified s ++ lit " e on e.id = f.id")
    ∷ lit " order by f.rrf_score desc, cosine_similarity desc nulls last, e.id"
    ∷ lit " limit (select results from scope);"
    ∷ []

-- `hybridSearch`.
unfoldable pub hybrid_search : Setup → Text
unfolding unlines
hybrid_search s = unlines (hybrid_opening s ++ hybrid_candidates s ++ hybrid_ranking s)
