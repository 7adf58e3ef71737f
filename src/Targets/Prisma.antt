-- ===== src/Targets/Prisma.antt =====
-- tools/schema-orm/node.mjs, `generatePrisma`: a Prisma schema.
use mathlib.Core.List.{flat_map}
use cliptown_lib_core.Prelude.{
  not, List, [], ◌∷◌, ◌++◌, map, Option, none, some, if◌then◌else◌, Result, ok, ◌>>=◌, ◌>>◌,
  traverse, for_each, is_empty, keep,
}
use cliptown_lib_core.Text.{Text, lit, text_eq, join, concat, digits, is_blank}
use cliptown_lib_core.Names.{pascal_case, camel_case, pluralize}
use cliptown_lib_core.Names.Languages.{ts_name}
use cliptown_lib_core.Json.{Json, null, bool, num, str, arr, obj, items, entries}
use cliptown_lib_core.Targets.Drizzle.{is_composite}
use cliptown_lib_core.Json.Stringify.{quote, bool_text, number_text}
use cliptown_lib_core.Schema.{Field, Reference, Index, Entity, Model}
use cliptown_lib_core.Schema.Entities.{spell}
use cliptown_lib_core.Sql.{has_format, entity_of, finish_lines, sql_default, postgres}
use cliptown_lib_core.Targets.{
  by_kind, by_format, header_line, is_only_key, is_now, when, relations_of,
}

unfoldable pub prisma_string : Field → Text × Text
prisma_string field =
    by_format field (lit "String", lit "@db.Uuid") (lit "DateTime", lit "@db.Timestamptz(6)")
      (elim field.property.max_length [
        | some n ↦ (lit "String", lit "@db.VarChar(" ++ digits n ++ lit ")")
        | none ↦ (lit "String", lit "@db.Text")
      ])

unfoldable pub prisma_type : Field → Result (Text × Text)
prisma_type field =
    by_kind (lit "unsupported Prisma type: " ++ field.kind) field (prisma_string field)
      (if has_format field (lit "int32") then lit "Int" else lit "BigInt", []) (lit "Float", [])
      (lit "Boolean", []) (lit "Json", []) (lit "Json", [])

unfoldable pub generated_default : Text → Text
generated_default value = lit "@default(dbgenerated(" ++ quote value ++ lit "))"

-- The default that the property gives, where its SQL is `value`.
unfoldable pub prisma_value : Text → Json → Text
prisma_value value (str s) = lit "@default(" ++ quote s ++ lit ")"
prisma_value value (bool b) = lit "@default(" ++ bool_text b ++ lit ")"
prisma_value value (num n) = lit "@default(" ++ number_text n ++ lit ")"
prisma_value value null = generated_default value
prisma_value value (arr vs) =
    if is_empty (items vs) then lit "@default(\"[]\")" else generated_default value
prisma_value value (obj ms) =
    if is_empty (entries ms) then lit "@default(\"{}\")" else generated_default value

unfoldable pub prisma_default : Field → Text
prisma_default field = elim (sql_default field postgres) [
  | none ↦ []
  | some value ↦
      if is_blank value
      then []
      else if text_eq value (lit "gen_random_uuid()")
      then lit "@default(uuid())"
      else if is_now value
      then lit "@default(now())"
      else elim field.property.initial [
        | some raw ↦ prisma_value value raw
        | none ↦ generated_default value
      ]
]

unfoldable pub relation_name : Entity → Field → Entity → Text
relation_name source field target =
    concat (source.class_name ∷ lit "_" ∷ pascal_case field.name ∷ lit "_" ∷ target.class_name ∷ [])

unfoldable pub optional_mark : Field → Text
optional_mark field = if field.nullable then lit "?" else []

unfoldable pub prisma_field : Entity → Field → Result Text
prisma_field entity field = do
  type ← prisma_type field
  let initial = prisma_default field
  let attributes =
      when (is_only_key entity field.name) (lit "@id")
      ++ when field.db.unique (lit "@unique")
      ++ when (not (is_blank initial)) initial
      ++ when (not (is_blank type.1)) type.1
      ++ when (not (text_eq field.column field.name)) (lit "@map(" ++ quote field.column ++ lit ")")
  ok (
      concat (
        lit "  "
        ∷ ts_name field.name
        ∷ lit " "
        ∷ type.0
        ∷ optional_mark field
        ∷ (if is_empty attributes then [] else lit " " ++ join (lit " ") attributes)
        ∷ []))

unfoldable pub prisma_action : Text → Option Text → Text
prisma_action key none = []
prisma_action key (some action) = lit ", " ++ key ++ lit ": " ++ pascal_case action

unfoldable pub prisma_relation : List Entity → Entity → Field × Reference → Result Text
prisma_relation entities entity (field, ref) = do
  target ← entity_of entities ref.entity
  ok (
      concat (
        lit "  "
        ∷ camel_case target.name
        ∷ lit "By"
        ∷ pascal_case field.name
        ∷ lit " "
        ∷ target.class_name
        ∷ optional_mark field
        ∷ lit " @relation("
        ∷ quote (relation_name entity field target)
        ∷ lit ", fields: ["
        ∷ ts_name field.name
        ∷ lit "], references: ["
        ∷ ts_name ref.target
        ∷ lit "]"
        ∷ prisma_action (lit "onDelete") ref.on_delete
        ∷ prisma_action (lit "onUpdate") ref.on_update
        ∷ lit ")"
        ∷ []))

-- `incoming.get(name)`: the fields that reference an entity, in the order of the schema.
unfoldable pub incoming : List Entity → Text → List (Entity × Field)
incoming entities name =
    flat_map
      (λ source.
        map (λ r. (source, r.0)) (keep (λ r. text_eq r.1.entity name) (relations_of source.fields)))
      entities

-- The loop that fills `incoming` reads the list of each referenced entity.
unfoldable pub check_targets : List Entity → Result (Unit {0})
check_targets entities =
    for_each (λ (r : Field × Reference). entity_of entities r.1.entity >>= λ _. ok tt)
      (flat_map (λ e. relations_of e.fields) entities)

unfoldable pub back_relation : Entity → Entity × Field → Text
back_relation entity (source, field) = concat (
    lit "  "
    ∷ camel_case (pluralize source.name)
    ∷ lit "By"
    ∷ pascal_case field.name
    ∷ lit " "
    ∷ source.class_name
    ∷ lit "[] @relation("
    ∷ quote (relation_name source field entity)
    ∷ lit ")"
    ∷ [])

unfoldable pub prisma_index : Index → Text
prisma_index spec = elim spec.condition [
  | some condition ↦ concat (
      lit "  /// Partial index "
      ∷ spec.name
      ∷ lit ": "
      ∷ join (lit ", ") spec.fields
      ∷ lit " WHERE "
      ∷ condition
      ∷ lit ". Managed by generated SQL."
      ∷ [])
  | none ↦ concat (
      lit "  "
      ∷ (if spec.unique then lit "@@unique" else lit "@@index")
      ∷ lit "(["
      ∷ join (lit ", ") (map ts_name spec.fields)
      ∷ lit "], map: "
      ∷ quote spec.name
      ∷ lit ")"
      ∷ [])
]

unfoldable pub prisma_entity : List Entity → Entity → Result (List Text)
prisma_entity entities entity = do
  fields ← traverse (prisma_field entity) entity.fields
  relations ← traverse (prisma_relation entities entity) (relations_of entity.fields)
  ok (
      (lit "model " ++ entity.class_name ++ lit " {") ∷ fields
      ++ relations
      ++ map (back_relation entity) (incoming entities entity.name)
      ++ when (is_composite entity.primary_key)
          (lit "  @@id([" ++ join (lit ", ") (map ts_name entity.primary_key) ++ lit "])")
      ++ map prisma_index entity.indexes
      ++ map
          (λ spec.
            concat (lit "  /// SQL CHECK " ∷ spell spec.name ∷ lit ": " ∷ spec.expression ∷ []))
          entity.checks
      ++ (lit "  @@map(" ++ quote entity.table ++ lit ")") ∷ lit "}" ∷ [] ∷ [])

unfoldable pub generate_prisma : Model → Result Text
generate_prisma model = do
  check_targets model.entities
  bodies ← traverse (prisma_entity model.entities) model.entities
  ok (
      finish_lines (
        header_line
        ∷ lit "generator client {"
        ∷ lit "  provider = \"prisma-client-js\""
        ∷ lit "}"
        ∷ []
        ∷ lit "datasource db {"
        ∷ lit "  provider = \"postgresql\""
        ∷ lit "  url      = env(\"DATABASE_URL\")"
        ∷ lit "}"
        ∷ []
        ∷ flat_map (λ body. body) bodies))
