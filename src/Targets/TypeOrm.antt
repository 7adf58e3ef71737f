-- ===== src/Targets/TypeOrm.antt =====
-- tools/schema-orm/node.mjs, `generateTypeOrm`: TypeORM entities.
use mathlib.Core.List.{flat_map}
use cliptown_lib_core.Prelude.{
  not, List, [], ◌∷◌, ◌++◌, map, Option, none, some, if◌then◌else◌, Result, ok, ◌>>=◌, traverse,
  is_empty,
}
use cliptown_lib_core.Text.{Text, lit, text_eq, join, concat, digits, is_blank, to_upper}
use cliptown_lib_core.Names.{pascal_case, camel_case}
use cliptown_lib_core.Names.Languages.{ts_name}
use cliptown_lib_core.Json.Stringify.{quote, bool_text}
use cliptown_lib_core.Schema.{Field, Reference, Index, Check, Entity, Model}
use cliptown_lib_core.Sql.{has_format, entity_of, finish_lines, sql_default, postgres}
use cliptown_lib_core.Targets.{
  by_kind, by_format, header_line, is_key, when, option_list, quote_name, literals, quotes,
}

unfoldable pub typeorm_string : Field → Text × Text
typeorm_string field =
    by_format field (lit "uuid", lit "string") (lit "timestamptz", lit "Date")
      (elim field.property.max_length [
        | some n ↦ (lit "varchar", lit "string")
        | none ↦ (lit "text", lit "string")
      ])

unfoldable pub typeorm_type : Field → Result (Text × Text)
typeorm_type field =
    by_kind (lit "unsupported TypeORM type: " ++ field.kind) field (typeorm_string field)
      (if has_format field (lit "int32")
        then (lit "integer", lit "number")
        else (lit "bigint", lit "string"))
      (lit "double precision", lit "number") (lit "boolean", lit "boolean")
      (lit "jsonb", lit "Record<string, unknown>") (lit "jsonb", lit "unknown[]")

unfoldable pub typeorm_index : Index → Text
typeorm_index spec = concat (
    lit "@Index("
    ∷ quote spec.name
    ∷ lit ", ["
    ∷ quotes (map ts_name spec.fields)
    ∷ lit "], { unique: "
    ∷ bool_text spec.unique
    ∷ concat (option_list (λ condition. lit ", where: " ++ quote condition) spec.condition)
    ∷ lit " })"
    ∷ [])

unfoldable pub typeorm_check : Check → Text
typeorm_check spec =
    concat (lit "@Check(" ∷ quote_name spec.name ∷ lit ", " ∷ quote spec.expression ∷ lit ")" ∷ [])

unfoldable pub typeorm_enum : Entity → Field → Result (List Text)
typeorm_enum entity field = if is_empty field.property.choices then ok [] else do
  allowed ← literals field.property.choices
  ok (
      concat (
        lit "@Check("
        ∷ quote (concat (entity.table ∷ lit "_" ∷ field.column ∷ lit "_chk" ∷ []))
        ∷ lit ", "
        ∷ quote (concat (field.column ∷ lit " in (" ∷ allowed ∷ lit ")" ∷ []))
        ∷ lit ")"
        ∷ [])
      ∷ [])

-- The length of a `varchar` column.
unfoldable pub typeorm_length : Field → Text → List Text
typeorm_length field type = elim field.property.max_length [
  | none ↦ []
  | some n ↦ when (text_eq type (lit "varchar")) (lit "length: " ++ digits n)
]

unfoldable pub typeorm_default : Option Text → List Text
typeorm_default none = []
typeorm_default (some value) = when (not (is_blank value)) (lit "default: () => " ++ quote value)

unfoldable pub presence_mark : Field → Text
presence_mark field = if field.nullable then lit "?" else lit "!"

unfoldable pub typeorm_relation : List Entity → Field → Option Reference → Result (List Text)
typeorm_relation entities field none = ok []
typeorm_relation entities field (some ref) = do
  target ← entity_of entities ref.entity
  let options =
      (lit "nullable: " ++ bool_text field.nullable)
        ∷ option_list (λ action. lit "onDelete: " ++ quote (to_upper action)) ref.on_delete
      ++ option_list (λ action. lit "onUpdate: " ++ quote (to_upper action)) ref.on_update
  ok (
      concat (
        lit "  @ManyToOne(() => "
        ∷ target.class_name
        ∷ lit ", { "
        ∷ join (lit ", ") options
        ∷ lit " })"
        ∷ [])
      ∷ concat (
          lit "  @JoinColumn({ name: "
          ∷ quote field.column
          ∷ lit ", referencedColumnName: "
          ∷ quote (ts_name ref.target)
          ∷ lit " })"
          ∷ [])
      ∷ concat (
          lit "  "
          ∷ camel_case target.name
          ∷ lit "By"
          ∷ pascal_case field.name
          ∷ presence_mark field
          ∷ lit ": "
          ∷ target.class_name
          ∷ lit ";"
          ∷ [])
      ∷ []
      ∷ [])

unfoldable pub typeorm_field : List Entity → Entity → Field → Result (List Text)
typeorm_field entities entity field = do
  type ← typeorm_type field
  relation ← typeorm_relation entities field field.db.references
  let options =
      (lit "name: " ++ quote field.column)
        ∷ (lit "type: " ++ quote type.0)
        ∷ typeorm_length field type.0
      ++ when field.nullable (lit "nullable: true")
      ++ typeorm_default (sql_default field postgres)
      ++ when field.db.unique (lit "unique: true")
  ok (
      concat (
        lit "  @"
        ∷ (if is_key entity field then lit "PrimaryColumn" else lit "Column")
        ∷ lit "({ "
        ∷ join (lit ", ") options
        ∷ lit " })"
        ∷ [])
      ∷ concat
          (lit "  " ∷ ts_name field.name ∷ presence_mark field ∷ lit ": " ∷ type.1 ∷ lit ";" ∷ [])
      ∷ []
      ∷ relation)

unfoldable pub typeorm_entity : List Entity → Entity → Result (List Text)
typeorm_entity entities entity = do
  enums ← traverse (typeorm_enum entity) entity.fields
  fields ← traverse (typeorm_field entities entity) entity.fields
  ok (
      map typeorm_index entity.indexes
      ++ map typeorm_check entity.checks
      ++ flat_map (λ checks. checks) enums
      ++ (lit "@Entity(" ++ quote entity.table ++ lit ")")
        ∷ (lit "export class " ++ entity.class_name ++ lit " {")
        ∷ flat_map (λ ls. ls) fields
      ++ lit "}" ∷ [] ∷ [])

unfoldable pub generate_type_orm : Model → Result Text
generate_type_orm model = do
  bodies ← traverse (typeorm_entity model.entities) model.entities
  ok (
      finish_lines (
        header_line
        ∷ lit
            "import { Check, Column, Entity, Index, JoinColumn, ManyToOne, PrimaryColumn } from 'typeorm';"
        ∷ []
        ∷ flat_map (λ body. body) bodies))
