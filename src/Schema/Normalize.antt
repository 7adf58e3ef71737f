-- ===== src/Schema/Normalize.antt =====
-- `normalizeSchema`.
use cliptown_lib_core.Prelude.{
  Bool, false, not, ◌&&◌, ◌||◌, List, [], ◌∷◌, ◌++◌, map, Option, some, ◌==◌, if◌then◌else◌, Result,
  ok, err, outside, ◌>>=◌, ◌>>◌, require, traverse, for_each, is_empty, all,
}
use mathlib.Core.List.{flat_map}
use cliptown_lib_core.Text.{Text, lit, is_lower, is_digit}
use cliptown_lib_core.Names.{snake_case, pascal_case}
use cliptown_lib_core.Json.{
  Json, obj, Members, entries, read, read?, is_object, is_text, text_or, truthy?,
}
use cliptown_lib_core.SqlGuard.{assert_identifier}
use cliptown_lib_core.Schema.{Field, Index, Check, Entity, Model}
use cliptown_lib_core.Schema.Fields.{normalize_field}
use cliptown_lib_core.Schema.Fields.Db.{named}
use cliptown_lib_core.Schema.Entities.{
  distinct, properties_of, required_of, is_own, primary_key_of, known_field, normalize_indexes,
  normalize_check, list_of, spell,
}

abbrev pub columns : List Field → List Text
columns fields = map (λ f. f.column) fields

abbrev pub index_names : List Index → List Text
index_names indexes = map (λ i. i.name) indexes

abbrev pub check_names : List Check → List Text
check_names checks = map (λ c. spell c.name) checks

-- The body of the loop over `$defs`, from `fieldMap` on.
unfoldable pub complete_entity :
    Text → Json → Option Json → Text → List Text → List Field → Result Entity
complete_entity name definition db table primary_key fields = do
  require (distinct (columns fields)) (name ++ lit " contains duplicate persistence column names")
  for_each (known_field fields (name ++ lit " primary key references unknown field ")) primary_key
  raw_indexes ← list_of (read? (lit "indexes") db)
  indexes ← normalize_indexes name table fields 0 raw_indexes
  require (distinct (index_names indexes)) (name ++ lit " contains duplicate index names")
  raw_checks ← list_of (read? (lit "checks") db)
  checks ← traverse (normalize_check name) raw_checks
  require (distinct (check_names checks)) (name ++ lit " contains duplicate check names")
  interface_type ← text_or name (read? (lit "type") (read? (lit "x-interface") (some definition)))
  description ← text_or [] (read? (lit "description") (some definition))
  ok (record {
    name = name;
    module_name = snake_case name;
    class_name = pascal_case name;
    interface_type = interface_type;
    table = table;
    description = description;
    fields = fields;
    primary_key = primary_key;
    indexes = indexes;
    checks = checks;
  })

-- The body of the loop over `$defs`, for a definition with a table. A table that is no string ends in
-- `outside`: the code accepts it where its text is an identifier.
unfoldable pub normalize_entity : Members → Text → Json → Option Json → Result Entity
normalize_entity defs name definition db = do
  require (is_text (read? (lit "type") (some definition)) (lit "object"))
      (name ++ lit " must be an object schema")
  table ← named (read? (lit "table") db)
  assert_identifier table (name ++ lit ".x-db.table")
  properties ← properties_of (read? (lit "properties") (some definition))
  required ← required_of (read? (lit "required") (some definition))
  for_each
      (λ key.
        require (is_own properties key) (name ++ lit ".required references unknown field " ++ key))
      required
  primary_key ← primary_key_of name properties (read? (lit "primaryKey") db)
  require (distinct primary_key) (name ++ lit " primary key contains duplicate fields")
  fields ← traverse (normalize_field defs name required) (entries properties)
  complete_entity name definition db table primary_key fields

-- The loop over `$defs`: a definition without a table is passed over.
unfoldable pub normalize_entities : Members → List (Text × Json) → Result (List Entity)
normalize_entities defs [] = ok []
normalize_entities defs ((name, definition) ∷ rest) = do
  db ← read (lit "x-db") definition
  if truthy? (read? (lit "table") db)
      then (do
        entity ← normalize_entity defs name definition db
        entities ← normalize_entities defs rest
        ok (entity ∷ entities))
      else normalize_entities defs rest

-- `/^[a-z0-9][a-z0-9-]*$/`.
unfoldable pub is_slug : Text → Bool
is_slug [] = false
is_slug (c ∷ s) = (is_lower c || is_digit c) && all (λ d. is_lower d || is_digit d || d == b'-') s

unfoldable pub members_of : Option Json → Result Members
members_of (some (obj ms)) = ok ms
members_of _ = err outside

abbrev pub tables : List Entity → List Text
tables entities = map (λ e. e.table) entities

abbrev pub names : List Entity → List Text
names entities = map (λ e. e.name) entities

abbrev pub all_index_names : List Entity → List Text
all_index_names entities = flat_map (λ e. index_names e.indexes) entities

-- The tests behind the loop.
unfoldable pub check_entities : List Entity → Result (Unit {0})
check_entities entities = do
  require (not (is_empty entities)) (lit "schema contains no x-db.table entity definitions")
  require (distinct (names entities)) (lit "duplicate entity names")
  require (distinct (tables entities)) (lit "duplicate table names")
  require (distinct (all_index_names entities))
      (lit "index names must be unique in the product schema")

unfoldable pub normalize_schema : Json → Result Model
normalize_schema schema = do
  require (is_object (some schema)) (lit "schema must be an object")
  require
      (is_text (read? (lit "$schema") (some schema))
        (lit "https://json-schema.org/draft/2020-12/schema"))
      (lit "schema must use JSON Schema draft 2020-12")
  let defs = read? (lit "$defs") (some schema)
  require (is_object defs) (lit "schema.$defs is required")
  let root = read? (lit "x-lib-core") (some schema)
  require (is_object root) (lit "schema.x-lib-core is required")
  let product = read? (lit "product") root
  let interfaces = read? (lit "interfaces") root
  require (truthy? product && truthy? (read? (lit "repository") interfaces))
      (lit "x-lib-core.product and x-lib-core.interfaces.repository are required")
  slug ← named product
  require (is_slug slug) (lit "x-lib-core.product must be a safe lowercase product slug")
  definitions ← members_of defs
  entities ← normalize_entities definitions (entries definitions)
  check_entities entities
  ok (record { schema = schema; product = slug; interfaces = interfaces; entities = entities })
