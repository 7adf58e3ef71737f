-- ===== src/Examples/Program.antt =====
-- The definitions of the whole program, for tests that compute with it.
use mathlib.Core.List.{flat_map}
use cliptown_lib_core.Prelude.{traverse, for_each, keep, any, all, is_empty}
use cliptown_lib_core.Text.{
  lit, text_eq, is_one_of, starts_with, includes, concat, join, replace_all, is_lower, is_upper,
  is_digit, is_alpha, is_alnum, is_word, is_space, lower_char, upper_char, to_lower, to_upper,
  same_ignoring_case, is_blank, squeeze, part_humps, runs, digits_from, digits, trim_end,
}
use cliptown_lib_core.Text.Replace.{replace_at, replace_text, ends_with, drop_last}
use cliptown_lib_core.Text.Regex.{nullable, seq', alt', deriv, matches}
use cliptown_lib_core.Json.{
  items, to_items, text_array, entries, own, read, read?, truthy, truthy?, is_object, is_array,
  is_nullish, is_text, as_text, text_or, is_inherited,
}
use cliptown_lib_core.Json.Stringify.{
  hex_digit, unicode_escape, is_high, is_low, starts_low, escape_unit, escape_from, quote,
  number_text, bool_text, break_line, block, string_of, stringify, stringify_items,
  stringify_members, pretty, pretty_items, pretty_members,
}
use cliptown_lib_core.Json.Canonical.{
  text_less, insert, insertion_sort, key_less, value_of, is_index, index_less, members,
  from_entries, stable_stringify, canonical, canonical_items, canonical_entries,
}
use cliptown_lib_core.Names.{
  is_separator, snake_case, capitalize, uncapitalize, pascal_case, camel_case, ends_in_vowel_y,
  pluralize,
}
use cliptown_lib_core.Names.Languages.{
  rust_reserved, rust_name, ts_reserved, avoid, ts_name, is_final_id, go_reserved, go_name,
  dart_reserved, dart_name,
}
use cliptown_lib_core.SqlGuard.{
  is_identifier, assert_identifier, is_line_break, nonempty_message, assert_single_line, has_word,
  sql_type, type_clauses, check_type, assert_sql_type, statement_keywords, has_terminator,
  finish_scan, scan_expression, assert_sql_expression,
}
use cliptown_lib_core.SqlGuard.{closes_outside, top_level_comma, scan}
use cliptown_lib_core.Schema.Entities.{
  distinct, properties_of, required_of, is_own, primary_key_of, find_field, column_of, known_field,
  array_of, index_name, normalize_index, normalize_indexes, spell, check_name, check_expression,
  normalize_check, list_of,
}
use cliptown_lib_core.Schema.Fields.{
  normalized_types, one_kind, property_kind, is_nullable, length_limit, enum_values, format_of,
  normalize_field,
}
use cliptown_lib_core.Schema.Fields.Db.{
  optional_type, optional_expression, dialect_default, dialect_defaults, has_member, has_property,
  reference_action, named, normalize_reference, optional_reference, normalize_db,
}
use cliptown_lib_core.Schema.Normalize.{
  complete_entity, normalize_entity, normalize_entities, is_slug, members_of, check_entities,
  normalize_schema,
}
use cliptown_lib_core.Sql.{
  finish_lines, dialect_name, has_format, is_kind, is_structured, postgres_string_type,
  postgres_kind_type, postgres_type, sqlite_type, sql_quote, sql_literal, sqlite_uuid, lookup,
  expression_default, value_default, sql_default, find_entity, entity_of, clause, reference_clauses,
  column_type, default_clause, sql_column,
}
use cliptown_lib_core.Sql.Columns.{
  is_paragraph_break, comma_list, columns_of, enum_clause, check_clause, where_clause,
  index_statement, entity_lines, generate_sql,
}
use cliptown_lib_core.Targets.{
  by_kind, by_format, relation_fields, is_key, is_only_key, one_line, is_now, any_field, when,
  option_list, field_of, quote_name, relations_of, quotes, literals,
}
use cliptown_lib_core.Targets.Drift.{
  dart_scalar, builder_name, column_class, drift_index, replace_first_blank, key_action,
  drift_reference, drift_length, dart_literal, big_int_default, drift_value_default,
  is_current_timestamp, drift_default, drift_field, drift_entity, generate_drift,
}
use cliptown_lib_core.Targets.Drizzle.{
  drizzle_string, drizzle_type, drizzle_value_default, drizzle_default, drizzle_builder,
  drizzle_options, drizzle_reference, drizzle_field, table_fields, drizzle_index, drizzle_check,
  drizzle_enum, is_composite, drizzle_extras, drizzle_entity, generate_drizzle,
}
use cliptown_lib_core.Targets.Ent.{
  ent_string, ent_type, ent_length, default_expression, ent_other_default, ent_default, ent_comment,
  ent_field_builder, ent_index, is_writable, ent_index_lines, ent_entity, ent_imports, generate_ent,
}
use cliptown_lib_core.Targets.Gorm.{
  go_scalar, position, gorm_index, gorm_default, gorm_field, gorm_constraints, gorm_relation,
  gorm_entity, gorm_imports, gorm_import_lines, generate_gorm,
}
use cliptown_lib_core.Targets.Prisma.{
  prisma_string, prisma_type, generated_default, prisma_value, prisma_default, relation_name,
  optional_mark, prisma_field, prisma_action, prisma_relation, incoming, check_targets,
  back_relation, prisma_index, prisma_entity, generate_prisma,
}
use cliptown_lib_core.Targets.Rust.{
  rust_scalar, rust_attributes, rust_field, count_reference, count_references, count_of,
  is_repeated, variant_name, relation_variant, related_impl, repeated_note, relation_lines,
  rust_entity, generate_rust_sea_orm,
}
use cliptown_lib_core.Targets.Shared.{
  descriptor, descriptor_data, descriptor_json, generate_shared_ts, rust_descriptor,
  generate_shared_rust, go_descriptor, generate_shared_go, dart_descriptor, generate_shared_dart,
}
use cliptown_lib_core.Targets.Stormberry.{
  stormberry_type, raw_default, annotation, stormberry_value, stormberry_raw, stormberry_default,
  stormberry_index, model_lines, stormberry_reference, stormberry_field, stormberry_entity,
  generate_stormberry,
}
use cliptown_lib_core.Targets.TypeOrm.{
  typeorm_string, typeorm_type, typeorm_index, typeorm_check, typeorm_enum, typeorm_length,
  typeorm_default, presence_mark, typeorm_relation, typeorm_field, typeorm_entity,
  generate_type_orm,
}
use cliptown_lib_core.Codegen.{
  framed, generator_sha256, outputs, hashes, optional_member, or_null, manifest, generate_files,
  assert_output_root, parse_from, parse_args, given, place, run, dispatch, main,
}
use cliptown_lib_core.Codegen.Files.{
  sorted, list_files, write_file, write_files, restore, write_generated, is_generated,
  stale_content, stale, differing, failures, conclude, check_generated,
}
use cliptown_lib_core.Topology.{
  is_settled, is_ready, insert as insert_of_topology, sort_by_name, delete_all, rounds,
  topological_entities,
}

unfoldable pub program : Unit {0}
unfolding all any flat_map for_each is_empty keep traverse lit text_eq is_one_of starts_with
    includes concat join replace_all is_lower is_upper is_digit is_alpha is_alnum is_word is_space
    lower_char upper_char to_lower to_upper same_ignoring_case is_blank squeeze part_humps runs
    digits_from digits trim_end replace_at replace_text ends_with drop_last nullable seq' alt' deriv
    matches items to_items text_array entries own read read? truthy truthy? is_object is_array
    is_nullish is_text as_text text_or is_inherited hex_digit unicode_escape is_high is_low
    starts_low escape_unit escape_from quote number_text bool_text break_line block string_of
    stringify stringify_items stringify_members pretty pretty_items pretty_members text_less insert
    insertion_sort key_less value_of is_index index_less members from_entries stable_stringify
    canonical canonical_items canonical_entries is_separator snake_case capitalize uncapitalize
    pascal_case camel_case ends_in_vowel_y pluralize rust_reserved rust_name ts_reserved avoid
    ts_name is_final_id go_reserved go_name dart_reserved dart_name is_identifier assert_identifier
    is_line_break nonempty_message assert_single_line has_word sql_type type_clauses check_type
    assert_sql_type statement_keywords has_terminator finish_scan scan_expression
    assert_sql_expression closes_outside top_level_comma scan distinct properties_of required_of
    is_own primary_key_of find_field column_of known_field array_of index_name normalize_index
    normalize_indexes spell check_name check_expression normalize_check list_of normalized_types
    one_kind property_kind is_nullable length_limit enum_values format_of normalize_field
    optional_type optional_expression dialect_default dialect_defaults has_member has_property
    reference_action named normalize_reference optional_reference normalize_db complete_entity
    normalize_entity normalize_entities is_slug members_of check_entities normalize_schema
    finish_lines dialect_name has_format is_kind is_structured postgres_string_type
    postgres_kind_type postgres_type sqlite_type sql_quote sql_literal sqlite_uuid lookup
    expression_default value_default sql_default find_entity entity_of clause reference_clauses
    column_type default_clause sql_column is_paragraph_break comma_list columns_of enum_clause
    check_clause where_clause index_statement entity_lines generate_sql by_kind by_format
    relation_fields is_key is_only_key one_line is_now any_field when option_list field_of
    quote_name relations_of quotes literals dart_scalar builder_name column_class drift_index
    replace_first_blank key_action drift_reference drift_length dart_literal big_int_default
    drift_value_default is_current_timestamp drift_default drift_field drift_entity generate_drift
    drizzle_string drizzle_type drizzle_value_default drizzle_default drizzle_builder
    drizzle_options drizzle_reference drizzle_field table_fields drizzle_index drizzle_check
    drizzle_enum is_composite drizzle_extras drizzle_entity generate_drizzle ent_string ent_type
    ent_length default_expression ent_other_default ent_default ent_comment ent_field_builder
    ent_index is_writable ent_index_lines ent_entity ent_imports generate_ent go_scalar position
    gorm_index gorm_default gorm_field gorm_constraints gorm_relation gorm_entity gorm_imports
    gorm_import_lines generate_gorm prisma_string prisma_type generated_default prisma_value
    prisma_default relation_name optional_mark prisma_field prisma_action prisma_relation incoming
    check_targets back_relation prisma_index prisma_entity generate_prisma rust_scalar
    rust_attributes rust_field count_reference count_references count_of is_repeated variant_name
    relation_variant related_impl repeated_note relation_lines rust_entity generate_rust_sea_orm
    descriptor descriptor_data descriptor_json generate_shared_ts rust_descriptor
    generate_shared_rust go_descriptor generate_shared_go dart_descriptor generate_shared_dart
    stormberry_type raw_default annotation stormberry_value stormberry_raw stormberry_default
    stormberry_index model_lines stormberry_reference stormberry_field stormberry_entity
    generate_stormberry typeorm_string typeorm_type typeorm_index typeorm_check typeorm_enum
    typeorm_length typeorm_default presence_mark typeorm_relation typeorm_field typeorm_entity
    generate_type_orm framed generator_sha256 outputs hashes optional_member or_null manifest
    generate_files assert_output_root parse_from parse_args given place run dispatch main sorted
    list_files write_file write_files restore write_generated is_generated stale_content stale
    differing failures conclude check_generated is_settled is_ready insert_of_topology sort_by_name
    delete_all rounds topological_entities
program = tt
