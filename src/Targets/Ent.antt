-- ===== src/Targets/Ent.antt =====
-- tools/schema-orm/ent-stormberry.mjs, `generateEnt`: Ent schemas. The program `gofmt`, which the
-- generator runs over the text, is a parameter that returns its output or throws.
use mathlib.Core.List.{flat_map}
use cliptown_lib_core.Prelude.{
  Bool, not, ◌&&◌, List, [], ◌∷◌, ◌++◌, map, none, some, if◌then◌else◌, Result, ok, ◌>>=◌, traverse,
  is_empty,
}
use cliptown_lib_core.Text.{Text, lit, text_eq, join, concat, digits}
use cliptown_lib_core.Json.Stringify.{quote, stringify}
use cliptown_lib_core.Schema.{Field, Reference, Index, Entity, Model}
use cliptown_lib_core.Schema.Entities.{column_of}
use cliptown_lib_core.Sql.{has_format, is_kind, is_structured, finish_lines}
use cliptown_lib_core.Targets.{
  by_kind, by_format, header_line, is_only_key, is_now, any_field, when, option_list, quotes,
}

unfoldable pub ent_string : Field → Text → Text
ent_string field name =
    if is_empty field.property.choices
    then by_format field (lit "field.UUID(" ++ name ++ lit ", uuid.UUID{})")
        (lit "field.Time(" ++ name ++ lit ")") (lit "field.String(" ++ name ++ lit ")")
    else concat (
        lit "field.Enum("
        ∷ name
        ∷ lit ").Values("
        ∷ join (lit ", ") (map stringify field.property.choices)
        ∷ lit ")"
        ∷ [])

unfoldable pub ent_type : Field → Text → Result Text
ent_type field name =
    by_kind (lit "unsupported Ent type: " ++ field.kind) field (ent_string field name)
      (if has_format field (lit "int32")
        then lit "field.Int32(" ++ name ++ lit ")"
        else lit "field.Int64(" ++ name ++ lit ")")
      (lit "field.Float(" ++ name ++ lit ")") (lit "field.Bool(" ++ name ++ lit ")")
      (lit "field.JSON(" ++ name ++ lit ", json.RawMessage{})")
      (lit "field.JSON(" ++ name ++ lit ", json.RawMessage{})")

unfoldable pub ent_length : Field → Text
ent_length field = elim field.property.max_length [
  | none ↦ []
  | some n ↦
      if is_kind field (lit "string") && is_empty field.property.choices
      then concat (lit ".MaxLen(" ∷ digits n ∷ lit ")" ∷ [])
      else []
]

unfoldable pub default_expression : Text → Text
default_expression value = lit ".Annotations(entsql.DefaultExpr(" ++ quote value ++ lit "))"

-- The default that the property gives, or else the expression of `x-db`.
unfoldable pub ent_other_default : Field → Text
ent_other_default field = elim field.property.initial [
  | some value ↦
      if is_structured field
      then concat (lit ".Default(json.RawMessage(" ∷ quote (stringify value) ∷ lit "))" ∷ [])
      else concat (lit ".Default(" ∷ stringify value ∷ lit ")" ∷ [])
  | none ↦ concat (option_list default_expression field.db.initial)
]

unfoldable pub ent_default : Field → Text
ent_default field = elim field.db.initial [
  | none ↦ ent_other_default field
  | some value ↦
      if text_eq value (lit "gen_random_uuid()")
      then lit ".Default(uuid.New).Annotations(entsql.DefaultExpr(\"gen_random_uuid()\"))"
      else if is_now value
      then lit ".Default(time.Now)" ++ default_expression value
      else ent_other_default field
]

unfoldable pub ent_comment : Reference → Text
ent_comment ref = concat (
    lit ".Comment("
    ∷ quote (
        concat (
          lit "Foreign key to "
          ∷ ref.entity
          ∷ lit "."
          ∷ ref.target
          ∷ lit "; DDL and referential actions are owned by generated SQL."
          ∷ []))
    ∷ lit ")"
    ∷ [])

unfoldable pub ent_field_builder : Field → Result Text
ent_field_builder field = do
  type ← ent_type field (quote field.column)
  ok (
      concat (
        type
        ∷ ent_length field
        ∷ (if field.nullable then lit ".Optional().Nillable()" else [])
        ∷ (if field.db.unique then lit ".Unique()" else [])
        ∷ lit ".StructTag("
        ∷ quote (concat (lit "json:\"" ∷ field.name ∷ lit ",omitempty\"" ∷ []))
        ∷ lit ")"
        ∷ ent_default field
        ∷ option_list ent_comment field.db.references))

unfoldable pub ent_index : Entity → Index → Result Text
ent_index entity spec = do
  columns ← traverse (column_of entity.fields) spec.fields
  ok (
      concat (
        lit "\t\tindex.Fields("
        ∷ quotes columns
        ∷ lit ")"
        ∷ (if spec.unique then lit ".Unique()" else [])
        ∷ concat (
            option_list
              (λ condition. lit ".Annotations(entsql.IndexWhere(" ++ quote condition ++ lit "))")
              spec.condition)
        ∷ lit ","
        ∷ []))

-- `primaryKey.length === 1 && primaryKey[0] === 'id'`.
unfoldable pub is_writable : Entity → Bool
is_writable entity = is_only_key entity (lit "id")

unfoldable pub ent_index_lines : Entity → Result (List Text)
ent_index_lines entity =
    if is_writable entity && not (is_empty entity.indexes)
    then (do
      indexes ← traverse (ent_index entity) entity.indexes
      ok (
          lit "// Indexes returns reviewable indexes; generated SQL remains authoritative."
            ∷ concat (lit "func (" ∷ entity.class_name ∷ lit ") Indexes() []ent.Index {" ∷ [])
            ∷ lit "\treturn []ent.Index{"
            ∷ indexes
          ++ lit "\t}" ∷ lit "}" ∷ [] ∷ []))
    else ok []

unfoldable pub ent_entity : Entity → Result (List Text)
ent_entity entity = do
  builders ← traverse ent_field_builder entity.fields
  indexes ← ent_index_lines entity
  ok (
      concat (lit "// " ∷ entity.class_name ∷ lit " maps " ∷ entity.table ∷ lit "." ∷ [])
        ∷ when (not (is_writable entity)) (
            lit
              "// It is read-only in Ent because the canonical table has a composite or non-id primary key.")
      ++ concat (lit "type " ∷ entity.class_name ∷ lit " struct {" ∷ [])
        ∷ (lit "\tent." ++ (if is_writable entity then lit "Schema" else lit "View"))
        ∷ lit "}"
        ∷ []
        ∷ lit
            "// Annotations configures the canonical table name without giving Ent migration ownership."
        ∷ concat
            (lit "func (" ∷ entity.class_name ∷ lit ") Annotations() []entschema.Annotation {" ∷ [])
        ∷ lit "\treturn []entschema.Annotation{"
        ∷ concat (lit "\t\tentsql.Annotation{Table: " ∷ quote entity.table ∷ lit "}," ∷ [])
        ∷ when (is_writable entity) (lit "\t\tentsql.Skip(),")
      ++ lit "\t}"
        ∷ lit "}"
        ∷ []
        ∷ lit "// Fields returns fields derived from JSON Schema."
        ∷ concat (lit "func (" ∷ entity.class_name ∷ lit ") Fields() []ent.Field {" ∷ [])
        ∷ lit "\treturn []ent.Field{"
        ∷ map (λ builder. concat (lit "\t\t" ∷ builder ∷ lit "," ∷ [])) builders
      ++ lit "\t}" ∷ lit "}" ∷ [] ∷ indexes)

unfoldable pub ent_imports : Model → List Text
ent_imports model =
    when (any_field is_structured model) (lit "\t\"encoding/json\"")
    ++ when (any_field (λ f. has_format f (lit "date-time")) model) (lit "\t\"time\"")
    ++ (if any_field (λ f. has_format f (lit "uuid")) model
        then [] ∷ lit "\t\"github.com/google/uuid\"" ∷ []
        else [])

unfoldable pub generate_ent : (Text → Result Text) → Model → Result Text
generate_ent gofmt model = do
  bodies ← traverse ent_entity model.entities
  gofmt (
      finish_lines (
        header_line
          ∷ lit "//"
          ∷ lit "// Generated SQL remains the migration and referential-integrity authority."
          ∷ lit
              "// Ent schemas use entsql.Skip(); composite-key entities are emitted as read-only views"
          ∷ lit "// because Ent otherwise injects a synthetic single-column id."
          ∷ lit "package schema"
          ∷ []
          ∷ lit "import ("
          ∷ ent_imports model
        ++ []
          ∷ lit "\t\"entgo.io/ent\""
          ∷ lit "\t\"entgo.io/ent/dialect/entsql\""
          ∷ lit "\tentschema \"entgo.io/ent/schema\""
          ∷ lit "\t\"entgo.io/ent/schema/field\""
          ∷ lit "\t\"entgo.io/ent/schema/index\""
          ∷ lit ")"
          ∷ []
          ∷ flat_map (λ body. body) bodies))
