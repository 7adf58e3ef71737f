-- ===== src/Targets/Drizzle.antt =====
-- tools/schema-orm/node.mjs, `generateDrizzle`: Drizzle tables.
use mathlib.Core.List.{flat_map}
use cliptown_lib_core.Prelude.{
  Bool, true, false, List, [], ◌∷◌, ◌++◌, map, Option, none, some, if◌then◌else◌, Result, ok, ◌>>=◌,
  traverse, is_empty,
}
use cliptown_lib_core.Text.{Text, lit, text_eq, join, concat, digits, to_lower}
use cliptown_lib_core.Names.{camel_case}
use cliptown_lib_core.Names.Languages.{ts_name}
use cliptown_lib_core.Json.Stringify.{quote, stringify}
use cliptown_lib_core.Schema.{Field, Reference, Index, Check, Entity, Model}
use cliptown_lib_core.Topology.{topological_entities}
use cliptown_lib_core.Sql.{has_format, entity_of, finish_lines, sql_default, postgres}
use cliptown_lib_core.Targets.{
  by_kind, by_format, header_line, is_only_key, is_now, when, option_list, field_of, quote_name,
  literals,
}

unfoldable pub drizzle_string : Field → Text → Text
drizzle_string field column =
    by_format field (lit "uuid(" ++ column ++ lit ")")
      (lit "timestamp(" ++ column ++ lit ", { withTimezone: true, mode: 'date' })")
      (elim field.property.max_length [
        | some n ↦ concat (lit "varchar(" ∷ column ∷ lit ", { length: " ∷ digits n ∷ lit " })" ∷ [])
        | none ↦ lit "text(" ++ column ++ lit ")"
      ])

unfoldable pub drizzle_type : Field → Text → Result Text
drizzle_type field column =
    by_kind (lit "unsupported Drizzle type: " ++ field.kind) field (drizzle_string field column)
      (if has_format field (lit "int32")
        then lit "integer(" ++ column ++ lit ")"
        else lit "bigint(" ++ column ++ lit ", { mode: 'bigint' })")
      (lit "doublePrecision(" ++ column ++ lit ")") (lit "boolean(" ++ column ++ lit ")")
      (lit "jsonb(" ++ column ++ lit ")") (lit "jsonb(" ++ column ++ lit ")")

unfoldable pub drizzle_value_default : Field → Text
drizzle_value_default field = elim field.property.initial [
  | some value ↦ lit ".default(" ++ stringify value ++ lit ")"
  | none ↦ []
]

unfoldable pub drizzle_default : Field → Text
drizzle_default field = elim (sql_default field postgres) [
  | none ↦ drizzle_value_default field
  | some value ↦
      if text_eq value (lit "gen_random_uuid()")
      then lit ".defaultRandom()"
      else if is_now value
      then lit ".defaultNow()"
      else drizzle_value_default field
]

unfoldable pub drizzle_builder : Field → Result Text
drizzle_builder field = do
  type ← drizzle_type field (quote field.column)
  ok (
      type
      ++ drizzle_default field
      ++ (if field.nullable then [] else lit ".notNull()")
      ++ (if field.db.unique then lit ".unique()" else []))

unfoldable pub drizzle_options : Reference → List Text
drizzle_options ref =
    option_list (λ action. lit "onDelete: " ++ quote (to_lower action)) ref.on_delete
    ++ option_list (λ action. lit "onUpdate: " ++ quote (to_lower action)) ref.on_update

unfoldable pub drizzle_reference : List Entity → Option Reference → Result Text
drizzle_reference entities none = ok []
drizzle_reference entities (some ref) = do
  target ← entity_of entities ref.entity
  field ← field_of target.fields ref.target
  ok (
      concat (
        lit ".references(() => "
        ∷ camel_case target.name
        ∷ lit "."
        ∷ ts_name field.name
        ∷ (if is_empty (drizzle_options ref)
            then []
            else lit ", { " ++ join (lit ", ") (drizzle_options ref) ++ lit " }")
        ∷ lit ")"
        ∷ []))

unfoldable pub drizzle_field : List Entity → Entity → Field → Result Text
drizzle_field entities entity field = do
  builder ← drizzle_builder field
  reference ← drizzle_reference entities field.db.references
  ok (
      concat (
        lit "  "
        ∷ ts_name field.name
        ∷ lit ": "
        ∷ builder
        ∷ (if is_only_key entity field.name then lit ".primaryKey()" else [])
        ∷ reference
        ∷ lit ","
        ∷ []))

unfoldable pub table_fields : List Text → Text
table_fields fields = join (lit ", ") (map (λ f. lit "table." ++ ts_name f) fields)

unfoldable pub drizzle_index : Index → Text
drizzle_index spec = concat (
    (if spec.unique then lit "uniqueIndex" else lit "index")
    ∷ lit "("
    ∷ quote spec.name
    ∷ lit ").on("
    ∷ table_fields spec.fields
    ∷ lit ")"
    ∷ option_list (λ condition. lit ".where(sql.raw(" ++ quote condition ++ lit "))")
        spec.condition)

unfoldable pub drizzle_check : Check → Text
drizzle_check spec =
    concat (
      lit "check("
      ∷ quote_name spec.name
      ∷ lit ", sql.raw("
      ∷ quote spec.expression
      ∷ lit "))"
      ∷ [])

unfoldable pub drizzle_enum : Entity → Field → Result (List Text)
drizzle_enum entity field = if is_empty field.property.choices then ok [] else do
  allowed ← literals field.property.choices
  ok (
      concat (
        lit "check("
        ∷ quote (concat (entity.table ∷ lit "_" ∷ field.column ∷ lit "_chk" ∷ []))
        ∷ lit ", sql.raw("
        ∷ quote (concat (field.column ∷ lit " in (" ∷ allowed ∷ lit ")" ∷ []))
        ∷ lit "))"
        ∷ [])
      ∷ [])

-- `entity.primaryKey.length > 1`.
unfoldable pub is_composite : List Text → Bool
is_composite (_ ∷ _ ∷ _) = true
is_composite _ = false

unfoldable pub drizzle_extras : Entity → Result (List Text)
drizzle_extras entity = do
  enums ← traverse (drizzle_enum entity) entity.fields
  ok (
      when (is_composite entity.primary_key)
        (lit "primaryKey({ columns: [" ++ table_fields entity.primary_key ++ lit "] })")
      ++ map drizzle_index entity.indexes
      ++ map drizzle_check entity.checks
      ++ flat_map (λ checks. checks) enums)

unfoldable pub drizzle_entity : List Entity → Entity → Result (List Text)
drizzle_entity entities entity = do
  fields ← traverse (drizzle_field entities entity) entity.fields
  extras ← drizzle_extras entity
  ok (
      concat (
          lit "export const "
          ∷ camel_case entity.name
          ∷ lit " = pgTable("
          ∷ quote entity.table
          ∷ lit ", {"
          ∷ [])
        ∷ fields
      ++ concat (
          lit "}, (table) => ["
          ∷ (if is_empty extras then [] else lit "\n  " ++ join (lit ",\n  ") extras ++ lit "\n")
          ∷ lit "]);"
          ∷ [])
        ∷ []
        ∷ [])

unfoldable pub generate_drizzle : (Text → Text → Bool) → Model → Result Text
generate_drizzle le model = do
  bodies ← traverse (drizzle_entity model.entities) (topological_entities le model.entities)
  ok (
      finish_lines (
        header_line
        ∷ lit
            "import { pgTable, uuid, text, varchar, integer, bigint, boolean, timestamp, jsonb, doublePrecision, primaryKey, uniqueIndex, index, check } from 'drizzle-orm/pg-core';"
        ∷ lit "import { sql } from 'drizzle-orm';"
        ∷ []
        ∷ flat_map (λ body. body) bodies))
