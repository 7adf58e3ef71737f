-- ===== src/Targets/Drift.antt =====
-- tools/schema-orm/go-dart.mjs, `generateDrift`: Drift tables.
use mathlib.Core.List.{flat_map}
use cliptown_lib_core.Prelude.{
  Bool, false, List, [], ◌∷◌, ◌++◌, map, Option, none, some, ◌==◌, if◌then◌else◌, Result, ok, err,
  outside, ◌>>=◌, traverse, is_empty,
}
use cliptown_lib_core.Text.{Text, lit, join, concat, digits, same_ignoring_case}
use cliptown_lib_core.Names.{camel_case}
use cliptown_lib_core.Names.Languages.{dart_name}
use cliptown_lib_core.Json.{Json, num, str}
use cliptown_lib_core.Json.Stringify.{quote, bool_text, number_text, stringify, string_of}
use cliptown_lib_core.Schema.{Field, Reference, Index, Entity, Model}
use cliptown_lib_core.Schema.Entities.{column_of}
use cliptown_lib_core.Sql.{
  has_format, is_kind, is_structured, entity_of, finish_lines, sql_default, sqlite,
}
use cliptown_lib_core.Targets.{by_kind, header_line, option_list}

pub data DartScalar : Type 0 where
  text date_time integer int64 real boolean : DartScalar

unfoldable pub dart_scalar : Field → Result DartScalar
dart_scalar field =
    by_kind (lit "unsupported Drift type: " ++ field.kind) field
      (if has_format field (lit "date-time") then date_time else text)
      (if has_format field (lit "int64") then int64 else integer) real boolean text text

unfoldable pub builder_name : DartScalar → Text
builder_name text = lit "text"
builder_name date_time = lit "dateTime"
builder_name integer = lit "integer"
builder_name int64 = lit "int64"
builder_name real = lit "real"
builder_name boolean = lit "boolean"

unfoldable pub column_class : DartScalar → Text
column_class text = lit "TextColumn"
column_class date_time = lit "DateTimeColumn"
column_class integer = lit "IntColumn"
column_class int64 = lit "BigIntColumn"
column_class real = lit "RealColumn"
column_class boolean = lit "BoolColumn"

unfoldable pub drift_index : Entity → Index → Result Text
drift_index entity spec = elim spec.condition [
  | some condition ↦ do
    columns ← traverse (column_of entity.fields) spec.fields
    ok (
        concat (
          lit "@TableIndex.sql("
          ∷ quote (
              concat (
                lit "CREATE "
                ∷ (if spec.unique then lit "UNIQUE " else [])
                ∷ lit "INDEX "
                ∷ spec.name
                ∷ lit " ON "
                ∷ entity.table
                ∷ lit " ("
                ∷ join (lit ", ") columns
                ∷ lit ") WHERE "
                ∷ condition
                ∷ []))
          ∷ lit ")"
          ∷ []))
  | none ↦ ok (
      concat (
        lit "@TableIndex(name: "
        ∷ quote spec.name
        ∷ lit ", columns: {"
        ∷ join (lit ", ") (map (λ f. lit "#" ++ dart_name f) spec.fields)
        ∷ lit "}, unique: "
        ∷ bool_text spec.unique
        ∷ lit ")"
        ∷ []))
]

-- `action.replace(' ', '_')`: the first blank.
unfoldable pub replace_first_blank : Text → Text
replace_first_blank [] = []
replace_first_blank (c ∷ s) = if c == b' ' then b'_' ∷ s else c ∷ replace_first_blank s

unfoldable pub key_action : Text → Text → Text
key_action key action =
    concat (key ∷ lit ": KeyAction." ∷ camel_case (replace_first_blank action) ∷ [])

unfoldable pub drift_reference : List Entity → Option Reference → Result Text
drift_reference entities none = ok []
drift_reference entities (some ref) = do
  target ← entity_of entities ref.entity
  let options =
      option_list (key_action (lit "onDelete")) ref.on_delete
      ++ option_list (key_action (lit "onUpdate")) ref.on_update
  ok (
      concat (
        lit ".references("
        ∷ target.class_name
        ∷ lit ", #"
        ∷ dart_name ref.target
        ∷ (if is_empty options then [] else lit ", " ++ join (lit ", ") options)
        ∷ lit ")"
        ∷ []))

unfoldable pub drift_length : Field → Text
drift_length field = elim field.property.max_length [
  | none ↦ []
  | some n ↦
      if is_kind field (lit "string")
      then concat (lit ".withLength(max: " ∷ digits n ∷ lit ")" ∷ [])
      else []
]

-- `typeof raw === 'string' ? JSON.stringify(raw) : String(raw)`.
unfoldable pub dart_literal : Json → Result Text
dart_literal (str s) = ok (quote s)
dart_literal raw = string_of raw

-- A default of format `int64`: `Number(raw)` of a number prints the number.
unfoldable pub big_int_default : Json → Result Text
big_int_default (num n) = ok (lit ".clientDefault(() => BigInt.from(" ++ number_text n ++ lit "))")
big_int_default _ = err outside

unfoldable pub drift_value_default : Field → Option Json → Result Text
drift_value_default field none = ok []
drift_value_default field (some raw) =
    if has_format field (lit "int64")
    then big_int_default raw
    else if is_structured field
    then ok (lit ".withDefault(Constant(" ++ quote (stringify raw) ++ lit "))")
    else dart_literal raw >>= λ literal.
        ok (lit ".withDefault(const Constant(" ++ literal ++ lit "))")

unfoldable pub is_current_timestamp : Option Text → Bool
is_current_timestamp none = false
is_current_timestamp (some value) = same_ignoring_case value (lit "current_timestamp")

unfoldable pub drift_default : Field → Result Text
drift_default field =
    if is_current_timestamp (sql_default field sqlite)
    then ok (lit ".withDefault(currentDateAndTime)")
    else drift_value_default field field.property.initial

unfoldable pub drift_field : List Entity → Field → Result Text
drift_field entities field = do
  scalar ← dart_scalar field
  reference ← drift_reference entities field.db.references
  initial ← drift_default field
  ok (
      concat (
        lit "  "
        ∷ column_class scalar
        ∷ lit " get "
        ∷ dart_name field.name
        ∷ lit " => "
        ∷ builder_name scalar
        ∷ lit "().named("
        ∷ quote field.column
        ∷ lit ")"
        ∷ reference
        ∷ drift_length field
        ∷ (if field.db.unique then lit ".unique()" else [])
        ∷ (if field.nullable then lit ".nullable()" else [])
        ∷ initial
        ∷ lit "();"
        ∷ []))

unfoldable pub drift_entity : List Entity → Entity → Result (List Text)
drift_entity entities entity = do
  indexes ← traverse (drift_index entity) entity.indexes
  fields ← traverse (drift_field entities) entity.fields
  ok (
      indexes
      ++ (lit "class " ++ entity.class_name ++ lit " extends Table {")
        ∷ lit "  @override"
        ∷ (lit "  String get tableName => " ++ quote entity.table ++ lit ";")
        ∷ []
        ∷ fields
      ++ []
        ∷ lit "  @override"
        ∷ concat (
            lit "  Set<Column<Object>> get primaryKey => {"
            ∷ join (lit ", ") (map dart_name entity.primary_key)
            ∷ lit "};"
            ∷ [])
        ∷ lit "}"
        ∷ []
        ∷ [])

unfoldable pub generate_drift : Model → Result Text
generate_drift model = do
  bodies ← traverse (drift_entity model.entities) model.entities
  ok (
      finish_lines (
        header_line
        ∷ lit "import 'package:drift/drift.dart';"
        ∷ []
        ∷ flat_map (λ body. body) bodies))
