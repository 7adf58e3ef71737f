-- ===== src/Embeddings/Queries/Matches.antt =====
-- scripts/embeddings/generate.mjs, `correlate` and `alertMatch`.
use cliptown_lib_core.Prelude.{◌∷◌, List, ◌++◌, []}
use cliptown_lib_core.Text.{Text, lit}
use cliptown_lib_core.Embeddings.{Setup, candidate_count, qualified, result_count, tenant}
use cliptown_lib_core.Embeddings.Spelling.{unlines}
use cliptown_lib_core.Embeddings.Queries.Hybrid.{query_header}

unfoldable pub correlate_title : Setup → Text
correlate_title s =
    query_header s
      (lit "Cross-kind correlation for "
        ++ qualified s
        ++ lit ": given one row, the rows of other kinds that are closest to it.")
      ((tenant s ++ lit " (uuid)")
        ∷ lit "source row id (uuid)"
        ∷ lit "target entity kinds (text[])"
        ∷ lit "minimum cosine similarity (double precision)"
        ∷ lit "result count (int)"
        ∷ [])

unfoldable pub alert_title : Setup → Text
alert_title s =
    query_header s
      (lit "Alert matching for "
        ++ qualified s
        ++ lit ": which saved alert rules does a newly ingested row fire?")
      ((tenant s ++ lit " (uuid)")
        ∷ lit "newly ingested row id (uuid)"
        ∷ lit "default cosine threshold (double precision) - overridden per rule via metadata"
        ∷ [])

unfoldable pub correlate_opening : Setup → List Text
correlate_opening s =
    correlate_title s
    ∷ lit "-- Correlation is the same machinery as search with the query vector read from"
    ∷ lit "-- a stored row instead of computed from text, and with the source row's own"
    ∷ lit "-- kind excluded so a claim correlates against evidence rather than against"
    ∷ lit "-- other claims. The model_key is taken from the source row, which is what"
    ∷ lit "-- keeps the comparison inside one vector space."
    ∷ []
    ∷ []

unfoldable pub correlate_query : Setup → List Text
correlate_query s =
    lit "with src as ("
    ∷ (lit "  select e.id, e."
        ++ tenant s
        ++ lit " as tenant, e.model_key, e.embedding, e.embedding_bits,")
    ∷ lit "         e.embedding_prefix, e.mrl_prefix_valid, e.entity_kind"
    ∷ (lit "    from " ++ qualified s ++ lit " e")
    ∷ (lit "   where e.id = $2::uuid and e." ++ tenant s ++ lit " = $1::uuid")
    ∷ lit "),"
    ∷ lit "candidates as ("
    ∷ lit "  select t.id"
    ∷ (lit "    from " ++ qualified s ++ lit " t, src")
    ∷ (lit "   where t." ++ tenant s ++ lit " = src.tenant")
    ∷ lit "     and t.model_key = src.model_key"
    ∷ lit "     and t.id <> src.id"
    ∷ lit
        "     and ($3::text[] is null or cardinality($3::text[]) = 0 or t.entity_kind = any ($3::text[]))"
    ∷ lit "   order by case"
    ∷ lit "     when src.mrl_prefix_valid then t.embedding_prefix <=> src.embedding_prefix"
    ∷ lit "     else (t.embedding_bits <~> src.embedding_bits)::double precision"
    ∷ lit "   end"
    ∷ (lit "   limit " ++ candidate_count s)
    ∷ lit ")"
    ∷ lit "select t.id, t.entity_kind, t.entity_id, t.title_text, t.summary_text, t.metadata,"
    ∷ lit "       1 - (t.embedding <=> src.embedding) as cosine_similarity"
    ∷ lit "  from candidates c"
    ∷ (lit "  join " ++ qualified s ++ lit " t on t.id = c.id")
    ∷ lit "  cross join src"
    ∷ lit " where 1 - (t.embedding <=> src.embedding) >= coalesce($4::double precision, 0.7)"
    ∷ lit " order by cosine_similarity desc, t.id"
    ∷ (lit " limit greatest(coalesce($5::int, " ++ result_count s ++ lit "), 1);")
    ∷ []

unfoldable pub alert_opening : Setup → List Text
alert_opening s =
    alert_title s
    ∷ lit "-- An alert rule is itself a row in this table, with entity_kind = 'alert_rule'"
    ∷ lit "-- and its threshold in metadata->>'threshold'. Matching a new document against"
    ∷ lit "-- every rule is therefore the same nearest-neighbour question as everything"
    ∷ lit "-- else here, evaluated in the direction rule <- document."
    ∷ lit "--"
    ∷ lit "-- Per-rule thresholds live in metadata rather than in a column because they are"
    ∷ lit "-- a property of the rule the user wrote, not of the embedding, and because a"
    ∷ lit "-- rule with no explicit threshold should inherit the caller's default."
    ∷ []
    ∷ []

unfoldable pub alert_query : Setup → List Text
alert_query s =
    lit "with doc as ("
    ∷ (lit "  select e.id, e."
        ++ tenant s
        ++ lit " as tenant, e.model_key, e.embedding, e.embedding_bits,")
    ∷ lit "         e.embedding_prefix, e.mrl_prefix_valid, e.entity_kind, e.title_text"
    ∷ (lit "    from " ++ qualified s ++ lit " e")
    ∷ (lit "   where e.id = $2::uuid and e." ++ tenant s ++ lit " = $1::uuid")
    ∷ lit "),"
    ∷ lit "rule_candidates as ("
    ∷ lit "  select r.id"
    ∷ (lit "    from " ++ qualified s ++ lit " r, doc")
    ∷ (lit "   where r." ++ tenant s ++ lit " = doc.tenant")
    ∷ lit "     and r.model_key = doc.model_key"
    ∷ lit "     and r.entity_kind = 'alert_rule'"
    ∷ lit "   order by case"
    ∷ lit "     when doc.mrl_prefix_valid then r.embedding_prefix <=> doc.embedding_prefix"
    ∷ lit "     else (r.embedding_bits <~> doc.embedding_bits)::double precision"
    ∷ lit "   end"
    ∷ (lit "   limit " ++ candidate_count s)
    ∷ lit ")"
    ∷ lit "select r.id as rule_id,"
    ∷ lit "       r.entity_id as rule_entity_id,"
    ∷ lit "       r.title_text as rule_title,"
    ∷ lit "       doc.id as matched_row_id,"
    ∷ lit "       doc.title_text as matched_title,"
    ∷ lit "       1 - (r.embedding <=> doc.embedding) as cosine_similarity,"
    ∷ lit
        "       coalesce((r.metadata->>'threshold')::double precision, $3::double precision, 0.78) as threshold_applied"
    ∷ lit "  from rule_candidates c"
    ∷ (lit "  join " ++ qualified s ++ lit " r on r.id = c.id")
    ∷ lit "  cross join doc"
    ∷ lit " where 1 - (r.embedding <=> doc.embedding)"
    ∷ lit
        "       >= coalesce((r.metadata->>'threshold')::double precision, $3::double precision, 0.78)"
    ∷ lit " order by cosine_similarity desc, r.id;"
    ∷ []

-- `correlate`.
unfoldable pub correlate : Setup → Text
unfolding unlines
correlate s = unlines (correlate_opening s ++ correlate_query s)

-- `alertMatch`.
unfoldable pub alert_match : Setup → Text
unfolding unlines
alert_match s = unlines (alert_opening s ++ alert_query s)
