-- ===== src/Targets/Gorm.antt =====
-- tools/schema-orm/go-dart.mjs, `generateGorm`: GORM models. The program `gofmt`, which the
-- generator runs over the text, is a parameter that returns its output or throws.
use mathlib.Core.List.{flat_map}
use cliptown_lib_core.Prelude.{
  ℕ, suc, not, List, [], ◌∷◌, ◌++◌, map, Option, none, some, if◌then◌else◌, Result, ok, ◌>>=◌,
  traverse, is_empty, keep,
}
use cliptown_lib_core.Text.{Text, lit, text_eq, join, concat, digits, is_blank, is_one_of, to_upper}
use cliptown_lib_core.Names.Languages.{go_name}
use cliptown_lib_core.Json.Stringify.{quote}
use cliptown_lib_core.Schema.{Field, Reference, Index, Entity, Model}
use cliptown_lib_core.Sql.{
  has_format, is_structured, entity_of, finish_lines, sql_default, postgres_type, postgres,
}
use cliptown_lib_core.Targets.{
  by_kind, by_format, header_line, is_key, any_field, when, option_list, relations_of,
}

unfoldable pub go_scalar : Field → Result Text
go_scalar field =
    by_kind (lit "unsupported Go type: " ++ field.kind) field
      (by_format field (lit "uuid.UUID") (lit "time.Time") (lit "string"))
      (if has_format field (lit "int32") then lit "int32" else lit "int64") (lit "float64")
      (lit "bool") (lit "json.RawMessage") (lit "json.RawMessage")

-- `fields.indexOf(name) + 1`, for a name of the list.
unfoldable pub position : Text → List Text → ℕ
position name [] = 0
position name (f ∷ fs) = if text_eq f name then 1 else suc (position name fs)

unfoldable pub gorm_index : Text → Index → Text
gorm_index name spec = concat (
    lit "index:"
    ∷ spec.name
    ∷ lit ","
    ∷ join (lit ",") (
        (lit "priority:" ++ digits (position name spec.fields)) ∷ when spec.unique (lit "unique")
        ++ option_list (λ condition. lit "where:" ++ condition) spec.condition)
    ∷ [])

unfoldable pub gorm_default : Option Text → List Text
gorm_default none = []
gorm_default (some value) = when (not (is_blank value)) (lit "default:" ++ value)

unfoldable pub gorm_field : Entity → Field → Result Text
gorm_field entity field = do
  scalar ← go_scalar field
  type ← postgres_type field
  let tags =
      (lit "column:" ++ field.column)
        ∷ (lit "type:" ++ type)
        ∷ (if is_key entity field then lit "primaryKey" ∷ lit "autoIncrement:false" ∷ [] else [])
      ++ when (not field.nullable) (lit "not null")
      ++ when field.db.unique (lit "unique")
      ++ gorm_default (sql_default field postgres)
      ++ map (gorm_index field.name)
          (keep (λ spec. is_one_of field.name spec.fields) entity.indexes)
  ok (
      concat (
        lit "  "
        ∷ go_name field.name
        ∷ lit " "
        ∷ (if field.nullable then lit "*" else [])
        ∷ scalar
        ∷ lit " `json:\""
        ∷ field.name
        ∷ lit "\" gorm:\""
        ∷ join (lit ";") tags
        ∷ lit "\"`"
        ∷ []))

unfoldable pub gorm_constraints : Reference → List Text
gorm_constraints ref =
    option_list (λ action. lit "OnUpdate:" ++ to_upper action) ref.on_update
    ++ option_list (λ action. lit "OnDelete:" ++ to_upper action) ref.on_delete

unfoldable pub gorm_relation : List Entity → Field × Reference → Result Text
gorm_relation entities (field, ref) = do
  target ← entity_of entities ref.entity
  let constraints = gorm_constraints ref
  let tags =
      (lit "foreignKey:" ++ go_name field.name)
      ∷ (lit "references:" ++ go_name ref.target)
      ∷ when (not (is_empty constraints)) (lit "constraint:" ++ join (lit ",") constraints)
  ok (
      concat (
        lit "  "
        ∷ target.class_name
        ∷ lit "By"
        ∷ go_name field.name
        ∷ lit " "
        ∷ (if field.nullable then lit "*" else [])
        ∷ target.class_name
        ∷ lit " `json:\"-\" gorm:\""
        ∷ join (lit ";") tags
        ∷ lit "\"`"
        ∷ []))

unfoldable pub gorm_entity : List Entity → Entity → Result (List Text)
gorm_entity entities entity = do
  fields ← traverse (gorm_field entity) entity.fields
  relations ← traverse (gorm_relation entities) (relations_of entity.fields)
  ok (
      (lit "type " ++ entity.class_name ++ lit " struct {") ∷ fields
      ++ relations
      ++ lit "}"
        ∷ []
        ∷ concat (
            lit "func ("
            ∷ entity.class_name
            ∷ lit ") TableName() string { return "
            ∷ quote entity.table
            ∷ lit " }"
            ∷ [])
        ∷ []
        ∷ [])

unfoldable pub gorm_imports : Model → List Text
gorm_imports model =
    when (any_field is_structured model) (lit "\"encoding/json\"")
    ++ when (any_field (λ f. has_format f (lit "date-time")) model) (lit "\"time\"")
    ++ when (any_field (λ f. has_format f (lit "uuid")) model) (lit "\"github.com/google/uuid\"")

unfoldable pub gorm_import_lines : List Text → List Text
gorm_import_lines [] = []
gorm_import_lines (i ∷ is) =
    lit "import (" ∷ map (λ item. lit "  " ++ item) (i ∷ is) ++ lit ")" ∷ [] ∷ []

unfoldable pub generate_gorm : (Text → Result Text) → Model → Result Text
generate_gorm gofmt model = do
  bodies ← traverse (gorm_entity model.entities) model.entities
  gofmt (
      finish_lines (
        header_line ∷ lit "package models" ∷ [] ∷ gorm_import_lines (gorm_imports model)
        ++ flat_map (λ body. body) bodies))
