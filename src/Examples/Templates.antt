-- ===== src/Examples/Templates.antt =====
-- The definitions of the generator of embeddings, for tests that compute with it.
use cliptown_lib_core.Embeddings.Cockroach.{
  cockroach_col, cockroach_extra, cockroach_opening, cockroach_registry, cockroach_table,
  cockroach_indexes, cockroach,
}
use cliptown_lib_core.Embeddings.ContractTest.{
  test_opening, test_contract, test_surfaces, test_checks, test_queries, contract_test,
}
use cliptown_lib_core.Embeddings.Dart.{
  dart_row, dart_rows, dart_constants, dart_model, dart_registry, dart_results, dart_prepare,
  dart_fusion, dart,
}
use cliptown_lib_core.Embeddings.Docs.{
  model_line, model_table, docs_opening, docs_width, docs_use, docs,
}
use cliptown_lib_core.Embeddings.Docs.Retrieval.{
  docs_candidates, docs_models, docs_fusion, docs_cockroach,
}
use cliptown_lib_core.Embeddings.JsonSchema.{json_schema, schema_text}
use cliptown_lib_core.Embeddings.JsonSchema.Members.{
  object, put, put_all, computed, count, ref, note_or_empty, extra_property,
}
use cliptown_lib_core.Embeddings.JsonSchema.Models.{model_schema, vector_schema}
use cliptown_lib_core.Embeddings.JsonSchema.Row.{entity_schema}
use cliptown_lib_core.Embeddings.JsonSchema.Search.{request_schema, hit_schema}
use cliptown_lib_core.Embeddings.Migration.{
  trim_start, trim, migration_opening, migration_steps, migration,
}
use cliptown_lib_core.Embeddings.Migration.Constraints.{
  widen_constraints, widen_keys, not_existing, widen_existing,
}
use cliptown_lib_core.Embeddings.Migration.Widen.{widen_opening, widen_provenance, widen_swap}
use cliptown_lib_core.Embeddings.Outputs.{
  outputs_with, setup_outputs, differs, stale_paths, check_run, resolved, write_run, generate,
}
use cliptown_lib_core.Embeddings.Postgres.{
  first_lines, body_lines, second_lines, postgres_source, drop, behind, behind_begin,
  without_commit, pg_body, before_cut, parts_at, pg_parts, joined, postgres,
}
use cliptown_lib_core.Embeddings.Postgres.Functions.{width_functions, check_functions}
use cliptown_lib_core.Embeddings.Postgres.Indexes.{
  candidate_indexes, lookup_indexes, touch_trigger, commit_lines,
}
use cliptown_lib_core.Embeddings.Postgres.Registry.{
  doubled_quotes, sql_text, seed_row, model_seed, postgres_opening, model_registry, registry_rows,
}
use cliptown_lib_core.Embeddings.Postgres.Table.{
  note_comment, extra_col, extra_cols_sql, table_opening, vector_columns, text_columns,
  table_constraints,
}
use cliptown_lib_core.Embeddings.Queries.Dedupe.{dedupe_title, dedupe_opening, dedupe_query, dedupe}
use cliptown_lib_core.Embeddings.Queries.Hybrid.{
  bind_lines, query_header, hybrid_title, hybrid_opening, hybrid_candidates, hybrid_ranking,
  hybrid_search,
}
use cliptown_lib_core.Embeddings.Queries.Matches.{
  correlate_title, alert_title, correlate_opening, correlate_query, alert_opening, alert_query,
  correlate, alert_match,
}
use cliptown_lib_core.Embeddings.Rust.Entity.{
  rust_col_type, rust_extra, rust_kinds, rust_row, rust_rows, rust_opening, rust_columns,
  rust_relations, rust_registry,
}
use cliptown_lib_core.Embeddings.Rust.Prepare.{rust_errors, rust_prepare, rust_tests, rust}
use cliptown_lib_core.Embeddings.Spelling.{
  quoted, sql_list, spaces, wrap_lines, indent_rest, wrap_list, unlines, difference, gap, ending,
  camel_from, camel, is_small, pascal_from, pascal, without_s,
}
use cliptown_lib_core.Embeddings.TypeScript.{
  ts_providers, ts_keys, ts_kinds, listed_kinds, ts_row, ts_rows, ts_constants, ts_registry,
  ts_results, ts_prepare, ts_fusion, ts,
}
use cliptown_lib_core.Embeddings.TypeSpec.{
  escaped_quotes, typespec_col, typespec_extra, typespec_vector, typespec_model, typespec_entity,
  typespec_search, typespec,
}
use cliptown_lib_core.Embeddings.TypeSpec.Enums.{
  tsp_enum, tsp_providers, tsp_keys, tsp_kinds, typespec_opening,
}
use cliptown_lib_core.Embeddings.{
  w, tol, rrf_k, candidate_count, result_count, qualified, new_texts, providers, dims_text,
  existing_dims, tenant_camel, entity_name, plain_org, is_timestamp, banner,
}
use cliptown_lib_core.Text.Cut.{after_word, cut_at, cut}
use cliptown_lib_core.Codegen.Storage.{
  stored_from, stored, segments_from, segments, climb, enter, walk, resolve_path, is_plain_segment,
  lies_below, are_plain,
}
use cliptown_lib_core.Codegen.Checked.{are_stored}

unfoldable pub templates : Unit {0}
unfolding cockroach_col cockroach_extra cockroach_opening cockroach_registry cockroach_table
    cockroach_indexes cockroach test_opening test_contract test_surfaces test_checks test_queries
    contract_test dart_row dart_rows dart_constants dart_model dart_registry dart_results
    dart_prepare dart_fusion dart model_line model_table docs_opening docs_width docs_use docs
    docs_candidates docs_models docs_fusion docs_cockroach json_schema schema_text object put
    put_all computed count ref note_or_empty extra_property model_schema vector_schema entity_schema
    request_schema hit_schema trim_start trim migration_opening migration_steps migration
    widen_constraints widen_keys not_existing widen_existing widen_opening widen_provenance
    widen_swap outputs_with setup_outputs differs stale_paths check_run resolved write_run generate
    first_lines body_lines second_lines postgres_source drop behind behind_begin without_commit
    pg_body before_cut parts_at pg_parts joined postgres width_functions check_functions
    candidate_indexes lookup_indexes touch_trigger commit_lines doubled_quotes sql_text seed_row
    model_seed postgres_opening model_registry registry_rows note_comment extra_col extra_cols_sql
    table_opening vector_columns text_columns table_constraints dedupe_title dedupe_opening
    dedupe_query dedupe bind_lines query_header hybrid_title hybrid_opening hybrid_candidates
    hybrid_ranking hybrid_search correlate_title alert_title correlate_opening correlate_query
    alert_opening alert_query correlate alert_match rust_col_type rust_extra rust_kinds rust_row
    rust_rows rust_opening rust_columns rust_relations rust_registry rust_errors rust_prepare
    rust_tests rust quoted sql_list spaces wrap_lines indent_rest wrap_list unlines difference gap
    ending camel_from camel is_small pascal_from pascal without_s ts_providers ts_keys ts_kinds
    listed_kinds ts_row ts_rows ts_constants ts_registry ts_results ts_prepare ts_fusion ts
    escaped_quotes typespec_col typespec_extra typespec_vector typespec_model typespec_entity
    typespec_search typespec tsp_enum tsp_providers tsp_keys tsp_kinds typespec_opening w tol rrf_k
    candidate_count result_count qualified new_texts providers dims_text existing_dims tenant_camel
    entity_name plain_org is_timestamp banner after_word cut_at cut stored_from stored segments_from
    segments climb enter walk resolve_path is_plain_segment lies_below are_plain are_stored
templates = tt
