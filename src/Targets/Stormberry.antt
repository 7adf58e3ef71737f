-- ===== src/Targets/Stormberry.antt =====
-- tools/schema-orm/ent-stormberry.mjs, `generateStormberry`: Stormberry models.
use mathlib.Core.List.{flat_map}
use cliptown_lib_core.Prelude.{
  not, List, [], ◌∷◌, ◌++◌, map, Option, none, some, if◌then◌else◌, Result, ok, ◌>>=◌, traverse,
}
use cliptown_lib_core.Text.{Text, lit, text_eq, join, concat, is_blank}
use cliptown_lib_core.Json.{Json, str}
use cliptown_lib_core.Json.Stringify.{quote, stringify, string_of}
use cliptown_lib_core.Schema.{Field, Reference, Index, Entity, Model}
use cliptown_lib_core.Schema.Entities.{column_of}
use cliptown_lib_core.Sql.{has_format, is_kind, is_structured, finish_lines, sql_quote}
use cliptown_lib_core.Targets.{
  by_kind, header_line, is_key, one_line, is_now, when, option_list, quotes,
}

unfoldable pub stormberry_type : Field → Result Text
stormberry_type field =
    by_kind (lit "unsupported Stormberry type: " ++ field.kind) field
      (if has_format field (lit "date-time") then lit "DateTime" else lit "String") (lit "int")
      (lit "double") (lit "bool") (lit "Map<String, dynamic>") (lit "List<dynamic>")

-- `field.db.default ?? field.property.default`, `none` for `undefined`.
unfoldable pub raw_default : Field → Option Json
raw_default field = elim field.db.initial [ some s ↦ some (str s) | none ↦ field.property.initial ]

unfoldable pub annotation : Text → Text
annotation value = lit "@Default(" ++ quote value ++ lit ")"

-- The annotation of a default that is not an SQL function of time or identity.
unfoldable pub stormberry_value : Field → Json → Result Text
stormberry_value field raw =
    if is_kind field (lit "string")
    then (string_of raw >>= λ s. ok (annotation (sql_quote s)))
    else if is_structured field
    then ok (annotation (sql_quote (stringify raw) ++ lit "::jsonb"))
    else string_of raw >>= λ s. ok (annotation s)

unfoldable pub stormberry_raw : Field → Json → Result Text
stormberry_raw field (str s) =
    if is_now s
    then ok (lit "@Default.currentTimestamp()")
    else if text_eq s (lit "gen_random_uuid()")
    then ok (lit "@Default('gen_random_uuid()')")
    else stormberry_value field (str s)
stormberry_raw field raw = stormberry_value field raw

unfoldable pub stormberry_default : Field → Result (List Text)
stormberry_default field = elim (raw_default field) [
  | none ↦ ok []
  | some raw ↦ stormberry_raw field raw >>= λ line. ok ((lit "  " ++ line) ∷ [])
]

unfoldable pub stormberry_index : Entity → Index → Result Text
stormberry_index entity spec = do
  columns ← traverse (column_of entity.fields) spec.fields
  ok (
      concat (
        lit "TableIndex("
        ∷ join (lit ", ") (
            (lit "name: " ++ quote spec.name)
              ∷ (lit "columns: [" ++ quotes columns ++ lit "]")
              ∷ when spec.unique (lit "unique: true")
            ++ option_list (λ condition. lit "condition: " ++ quote condition) spec.condition)
        ∷ lit ")"
        ∷ []))

unfoldable pub model_lines : Text → List Text → List Text
model_lines table [] = (lit "@Model(tableName: " ++ quote table ++ lit ")") ∷ []
model_lines table (i ∷ is) =
    lit "@Model("
      ∷ (lit "  tableName: " ++ quote table ++ lit ",")
      ∷ lit "  indexes: ["
      ∷ map (λ spec. concat (lit "    " ∷ spec ∷ lit "," ∷ [])) (i ∷ is)
    ++ lit "  ]," ∷ lit ")" ∷ []

unfoldable pub stormberry_reference : Reference → Text
stormberry_reference ref = concat (
    lit "  /// Foreign key to "
    ∷ ref.entity
    ∷ lit "."
    ∷ ref.target
    ∷ lit "; constraints are SQL-managed."
    ∷ [])

unfoldable pub stormberry_field : Entity → Field → Result (List Text)
stormberry_field entity field = do
  initial ← stormberry_default field
  type ← stormberry_type field
  ok (
      concat (
          lit "  /// JSON Schema property: "
          ∷ field.name
          ∷ lit "; SQL column: "
          ∷ field.column
          ∷ lit "."
          ∷ [])
        ∷ when (is_key entity field) (lit "  @PrimaryKey()")
      ++ initial
      ++ option_list stormberry_reference field.db.references
      ++ concat (
          lit "  "
          ∷ type
          ∷ (if field.nullable then lit "?" else [])
          ∷ lit " get "
          ∷ field.column
          ∷ lit ";"
          ∷ [])
        ∷ []
        ∷ [])

unfoldable pub stormberry_entity : Entity → Result (List Text)
stormberry_entity entity = do
  indexes ← traverse (stormberry_index entity) entity.indexes
  fields ← traverse (stormberry_field entity) entity.fields
  ok (
      when (not (is_blank entity.description)) (lit "/// " ++ one_line entity.description)
      ++ model_lines entity.table indexes
      ++ (lit "abstract class " ++ entity.class_name ++ lit " {") ∷ flat_map (λ ls. ls) fields
      ++ lit "}" ∷ [] ∷ [])

unfoldable pub generate_stormberry : Model → Result Text
generate_stormberry model = do
  bodies ← traverse stormberry_entity model.entities
  ok (
      finish_lines (
        header_line
        ∷ lit "//"
        ∷ lit
            "// This adapter provides typed PostgreSQL repositories. Do not run `stormberry migrate`"
        ∷ lit "// against production: generated/sql/postgres.sql remains the migration authority."
        ∷ lit "import 'package:stormberry/stormberry.dart';"
        ∷ []
        ∷ lit "part 'models.schema.dart';"
        ∷ []
        ∷ flat_map (λ body. body) bodies))
