-- ===== src/Embeddings/Migration/Constraints.antt =====
-- scripts/embeddings/generate.mjs, `widenExisting`: the constraints and the other case.
use cliptown_lib_core.Prelude.{◌∷◌, List, ◌++◌, if◌then◌else◌, []}
use cliptown_lib_core.Text.{Text, lit}
use cliptown_lib_core.Embeddings.{Setup, kinds, ns, p, qualified, tbl, tenant, tol}
use cliptown_lib_core.Embeddings.Spelling.{unlines, wrap_list}
use cliptown_lib_core.Embeddings.Migration.Widen.{widen_opening, widen_provenance, widen_swap}

unfoldable pub widen_constraints : Setup → List Text
widen_constraints s =
    lit "-- 7. Constraints that the old table either lacks or states differently."
    ∷ lit "--    The old CHECK on entity_kind and the old UNIQUE are dropped by lookup"
    ∷ lit "--    rather than by name: both were auto-named by Postgres, and an auto-name is"
    ∷ lit "--    truncated at 63 bytes, so hard-coding it is how this breaks on one"
    ∷ lit "--    deployment and not another."
    ∷ lit "do $emb_constraints$"
    ∷ lit "declare c record;"
    ∷ lit "begin"
    ∷ lit "  for c in"
    ∷ lit "    select con.conname"
    ∷ lit "      from pg_constraint con"
    ∷ lit "      join pg_class rel on rel.oid = con.conrelid"
    ∷ lit "      join pg_namespace nsp on nsp.oid = rel.relnamespace"
    ∷ (lit "     where nsp.nspname = '" ++ ns s ++ lit "' and rel.relname = '" ++ tbl s ++ lit "'")
    ∷ lit "       and con.contype = 'c'"
    ∷ lit "       and pg_get_constraintdef(con.oid) ilike '%entity_kind%'"
    ∷ (lit "       and con.conname <> '" ++ p s ++ lit "_emb_zero_padded'")
    ∷ lit "  loop"
    ∷ (lit "    execute format('alter table "
        ++ qualified s
        ++ lit " drop constraint %I', c.conname);")
    ∷ lit "  end loop;"
    ∷ []
    ∷ lit "  for c in"
    ∷ lit "    select con.conname"
    ∷ lit "      from pg_constraint con"
    ∷ lit "      join pg_class rel on rel.oid = con.conrelid"
    ∷ lit "      join pg_namespace nsp on nsp.oid = rel.relnamespace"
    ∷ (lit "     where nsp.nspname = '" ++ ns s ++ lit "' and rel.relname = '" ++ tbl s ++ lit "'")
    ∷ lit "       and con.contype = 'u'"
    ∷ lit "       and pg_get_constraintdef(con.oid) ilike '%model_name%'"
    ∷ lit "  loop"
    ∷ (lit "    execute format('alter table "
        ++ qualified s
        ++ lit " drop constraint %I', c.conname);")
    ∷ lit "  end loop;"
    ∷ lit "end"
    ∷ lit "$emb_constraints$;"
    ∷ []
    ∷ (lit "alter table " ++ qualified s)
    ∷ (lit "  add constraint " ++ tbl s ++ lit "_entity_kind_check")
    ∷ (lit "    check (entity_kind in (" ++ wrap_list (kinds s) 26 ++ lit "));")
    ∷ []
    ∷ []

unfoldable pub widen_keys : Setup → List Text
widen_keys s =
    (lit "alter table " ++ qualified s)
    ∷ (lit "  add constraint " ++ p s ++ lit "_emb_zero_padded")
    ∷ (lit "    check (" ++ ns s ++ lit ".emb_is_zero_padded(embedding, native_dims)),")
    ∷ (lit "  add constraint " ++ p s ++ lit "_emb_unit_norm")
    ∷ (lit "    check (" ++ ns s ++ lit ".emb_is_unit(embedding, " ++ tol s ++ lit ")),")
    ∷ (lit "  add constraint " ++ p s ++ lit "_emb_model_key_is_derived")
    ∷ lit "    check (model_key = provider || ':' || model_name || ':' || model_version),"
    ∷ (lit "  add constraint " ++ p s ++ lit "_emb_one_row_per_entity_per_model")
    ∷ (lit "    unique (" ++ tenant s ++ lit ", entity_kind, entity_id, model_key);")
    ∷ []
    ∷ (lit "alter table " ++ qualified s)
    ∷ (lit "  add constraint " ++ tbl s ++ lit "_model_key_fkey")
    ∷ (lit "    foreign key (model_key) references "
        ++ ns s
        ++ lit ".embedding_models (model_key);")
    ∷ []
    ∷ lit "-- 8. The old narrow search_text column is now redundant: its content was copied"
    ∷ lit "--    into body_text in step 4 and the weighted search_document is built from the"
    ∷ lit "--    three new text columns. Dropping it is destructive, so it is left to a"
    ∷ lit "--    follow-up migration once the application has stopped writing it."
    ∷ (lit "--    ALTER TABLE " ++ qualified s ++ lit " DROP COLUMN search_text;")
    ∷ []

unfoldable pub not_existing : Setup → List Text
not_existing s =
    []
    ∷ (lit "-- "
        ++ qualified s
        ++ lit " does not exist yet in any deployed environment; this migration is the")
    ∷ (lit "-- create. It is byte-identical in effect to db/schema/postgres/0100_"
        ++ p s
        ++ lit "_embeddings.sql,")
    ∷ lit "-- which remains the declarative source of truth that dpm diffs against."
    ∷ []

-- `widenExisting`.
unfoldable pub widen_existing : Setup → Text
unfolding unlines
widen_existing s =
    if s.manifest.existing_table
    then unlines (
        widen_opening s
        ++ widen_provenance s
        ++ widen_swap s
        ++ widen_constraints s
        ++ widen_keys s)
    else unlines (not_existing s)
