-- ===== src/Embeddings/Queries/Dedupe.antt =====
-- scripts/embeddings/generate.mjs, `dedupe`.
use cliptown_lib_core.Prelude.{◌∷◌, List, ◌++◌, if◌then◌else◌, []}
use cliptown_lib_core.Text.{Text, lit}
use cliptown_lib_core.Embeddings.{Setup, candidate_count, prefix_dims, qualified, tenant, w}
use cliptown_lib_core.Embeddings.Spelling.{unlines}
use cliptown_lib_core.Embeddings.Queries.Hybrid.{query_header}

unfoldable pub dedupe_title : Setup → Text
dedupe_title s =
    query_header s
      (lit "Near-duplicate detection for "
        ++ qualified s
        ++ lit ". "
        ++ (if s.manifest.dedupe_is_primary then lit "Primary read path for this org." else []))
      ((tenant s ++ lit " (uuid)")
        ∷ lit "model_key (text)"
        ∷ (lit "candidate embedding (vector(" ++ w s ++ lit "), unit norm, zero-padded)")
        ∷ lit "content_sha256 (text) - exact-match short circuit"
        ∷ lit "cosine similarity threshold (double precision) - 0.95 is a reasonable start"
        ∷ lit "candidate count (int)"
        ∷ [])

unfoldable pub dedupe_opening : Setup → List Text
dedupe_opening s =
    dedupe_title s
    ∷ lit "-- Two tiers. An exact content hash match is a duplicate with no vector work at"
    ∷ lit "-- all. Below that, semantic duplicates are found the same two-stage way as"
    ∷ lit "-- search: indexable candidate surface, then exact cosine on the candidates."
    ∷ lit "--"
    ∷ lit "-- The threshold is a parameter and not a constant on purpose: what counts as"
    ∷ lit "-- \"the same\" differs between a notification digest and a marketing asset, and"
    ∷ lit "-- baking one number into the schema would be wrong for both."
    ∷ []
    ∷ []

unfoldable pub dedupe_query : Setup → List Text
dedupe_query s =
    lit "with scope as ("
    ∷ lit "  select $1::uuid as tenant, $2::text as model_key, $3::extensions.vector as qv,"
    ∷ lit "         $4::text as sha, coalesce($5::double precision, 0.95) as threshold,"
    ∷ (lit "         greatest(coalesce($6::int, " ++ candidate_count s ++ lit "), 1) as candidates")
    ∷ lit "),"
    ∷ lit "exact_match as ("
    ∷ lit "  select e.id, e.entity_kind, e.entity_id, 1.0::double precision as similarity,"
    ∷ lit "         'content_sha256'::text as match_kind"
    ∷ (lit "    from " ++ qualified s ++ lit " e, scope s")
    ∷ (lit "   where e." ++ tenant s ++ lit " = s.tenant")
    ∷ lit "     and e.model_key = s.model_key"
    ∷ lit "     and e.content_sha256 = s.sha"
    ∷ lit "),"
    ∷ lit "candidates as ("
    ∷ lit "  select e.id"
    ∷ (lit "    from " ++ qualified s ++ lit " e, scope s")
    ∷ (lit "   where e." ++ tenant s ++ lit " = s.tenant")
    ∷ lit "     and e.model_key = s.model_key"
    ∷ lit "   order by case"
    ∷ lit "     when e.mrl_prefix_valid"
    ∷ (lit "       then e.embedding_prefix <=> extensions.subvector(s.qv, 1, "
        ++ prefix_dims
        ++ lit ")::extensions.halfvec("
        ++ prefix_dims
        ++ lit ")")
    ∷ (lit "     else (e.embedding_bits <~> extensions.binary_quantize(s.qv)::bit("
        ++ w s
        ++ lit "))::double precision")
    ∷ lit "   end"
    ∷ lit "   limit (select candidates from scope)"
    ∷ lit "),"
    ∷ lit "semantic_match as ("
    ∷ lit "  select e.id, e.entity_kind, e.entity_id,"
    ∷ lit "         1 - (e.embedding <=> (select qv from scope)) as similarity,"
    ∷ lit "         'cosine'::text as match_kind"
    ∷ lit "    from candidates c"
    ∷ (lit "    join " ++ qualified s ++ lit " e on e.id = c.id")
    ∷ lit "   where 1 - (e.embedding <=> (select qv from scope)) >= (select threshold from scope)"
    ∷ lit ")"
    ∷ lit "select * from exact_match"
    ∷ lit "union"
    ∷ lit "select * from semantic_match"
    ∷ lit "order by similarity desc, id"
    ∷ lit "limit 50;"
    ∷ []

-- `dedupe`.
unfoldable pub dedupe : Setup → Text
unfolding unlines
dedupe s = unlines (dedupe_opening s ++ dedupe_query s)
