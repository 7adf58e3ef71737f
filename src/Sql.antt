-- ===== src/Sql.antt =====
-- tools/schema-orm/sql.mjs: the declarative SQL of a model, for PostgreSQL and SQLite.
pub mod Literal
pub mod Columns
use cliptown_lib_core.Prelude.{
  ℕ, Bool, true, false, not, ◌&&◌, ◌||◌, List, [], ◌∷◌, ◌++◌, map, Option, none, some, leb,
  if◌then◌else◌, Result, ok, err, error, type_error, ◌>>=◌, ◌>>◌, traverse, is_empty, is_some,
}
use cliptown_lib_core.Text.{
  Text, lit, text_eq, join, concat, digits, replace_all, squeeze, trim_end, is_blank,
}
use cliptown_lib_core.Json.{Json, null, bool, num, str, arr, obj}
use cliptown_lib_core.Json.Stringify.{stringify, number_text, bool_text}
use cliptown_lib_core.Schema.{Field, Reference, Index, Check, Entity, Model}
use cliptown_lib_core.Schema.Entities.{find_field, column_of, spell}
use cliptown_lib_core.Topology.{topological_entities}

-- `GENERATED_HEADER` of core.mjs.
abbrev pub generated_header : Text
generated_header = lit "Generated by tools/schema-orm-codegen.mjs. DO NOT EDIT."

-- `${lines.join('\n').trimEnd()}\n`.
unfoldable pub finish_lines : List Text → Text
finish_lines lines = trim_end (join (10 ∷ []) lines) ++ 10 ∷ []

pub data Dialect : Type 0 where
  postgres sqlite : Dialect

unfoldable pub dialect_name : Dialect → Text
dialect_name postgres = lit "postgres"
dialect_name sqlite = lit "sqlite"

-- `field.property.format === format`.
unfoldable pub has_format : Field → Text → Bool
has_format field format = elim field.property.format [ none ↦ false | some f ↦ text_eq f format ]

unfoldable pub is_kind : Field → Text → Bool
is_kind field kind = text_eq field.kind kind

-- `field.kind === 'object' || field.kind === 'array'`.
unfoldable pub is_structured : Field → Bool
is_structured field = is_kind field (lit "object") || is_kind field (lit "array")

unfoldable pub postgres_string_type : Field → Text
postgres_string_type field =
    if has_format field (lit "uuid")
    then lit "uuid"
    else if has_format field (lit "date-time")
    then lit "timestamptz"
    else elim field.property.max_length [
      | none ↦ lit "text"
      | some n ↦ if leb n 10_000_000 then lit "varchar(" ++ digits n ++ lit ")" else lit "text"
    ]

-- The lines of `postgresType` behind the override, for a field without `postgresType`.
unfoldable pub postgres_kind_type : Field → Result Text
postgres_kind_type field =
    if is_kind field (lit "string")
    then ok (postgres_string_type field)
    else if is_kind field (lit "integer")
    then ok (if has_format field (lit "int32") then lit "integer" else lit "bigint")
    else if is_kind field (lit "number")
    then ok (lit "double precision")
    else if is_kind field (lit "boolean")
    then ok (lit "boolean")
    else if is_structured field
    then ok (lit "jsonb")
    else err
        (error (lit "unsupported PostgreSQL type for " ++ field.name ++ lit ": " ++ field.kind))

unfoldable pub postgres_type : Field → Result Text
postgres_type field = elim field.db.postgres_type [
  | some t ↦ ok t
  | none ↦ postgres_kind_type field
]

unfoldable pub sqlite_type : Field → Text
sqlite_type field = elim field.db.sqlite_type [
  | some t ↦ t
  | none ↦
      if is_kind field (lit "integer") || is_kind field (lit "boolean")
      then lit "integer"
      else if is_kind field (lit "number")
      then lit "real"
      else lit "text"
]

-- `'${s.replaceAll("'", "''")}'`.
unfoldable pub sql_quote : Text → Text
sql_quote s = b'\'' ∷ replace_all b'\'' (b'\'' ∷ b'\'' ∷ []) s ++ b'\'' ∷ []

unfoldable pub sql_literal : Json → Text
sql_literal (str s) = sql_quote s
sql_literal (bool b) = bool_text b
sql_literal (num n) = number_text n
sql_literal null = lit "null"
sql_literal (arr vs) = sql_quote (stringify (arr vs)) ++ lit "::jsonb"
sql_literal (obj ms) = sql_quote (stringify (obj ms)) ++ lit "::jsonb"

-- The version 4 UUID that SQLite computes in place of `gen_random_uuid()`.
unfoldable pub sqlite_uuid : Text
sqlite_uuid =
    lit
      "(lower(hex(randomblob(4))) || '-' || lower(hex(randomblob(2))) || '-4' || substr(lower(hex(randomblob(2))), 2) || '-' || substr('89ab', abs(random()) % 4 + 1, 1) || substr(lower(hex(randomblob(2))), 2) || '-' || lower(hex(randomblob(6))))"

unfoldable pub lookup : Text → List (Text × Text) → Option Text
lookup key [] = none
lookup key ((k, v) ∷ rest) = if text_eq k key then some v else lookup key rest

-- The default that the schema gives as an expression.
unfoldable pub expression_default : Text → Dialect → Text
expression_default expression postgres = expression
expression_default expression sqlite =
    if text_eq expression (lit "gen_random_uuid()") then sqlite_uuid else expression

unfoldable pub value_default : Field → Dialect → Json → Text
value_default field postgres value = sql_literal value
value_default field sqlite value =
    if is_structured field then sql_quote (stringify value) else sql_literal value

-- `sqlDefault`; `none` is `null`.
unfoldable pub sql_default : Field → Dialect → Option Text
sql_default field dialect = elim (lookup (dialect_name dialect) field.db.initial_by_dialect) [
  | some expression ↦ some expression
  | none ↦ elim field.db.initial [
    | some expression ↦ some (expression_default expression dialect)
    | none ↦ elim field.property.initial [
      | some value ↦ some (value_default field dialect value)
      | none ↦ none
    ]
  ]
]

-- `entityMap.get(name)`.
unfoldable pub find_entity : List Entity → Text → Option Entity
find_entity [] name = none
find_entity (e ∷ es) name = if text_eq e.name name then some e else find_entity es name

-- `entityMap.get(name)` where a member of the result is read.
unfoldable pub entity_of : List Entity → Text → Result Entity
entity_of entities name = elim (find_entity entities name) [ some e ↦ ok e | none ↦ err type_error ]

-- `key value` where there is a value.
unfoldable pub clause : Text → Option Text → List Text
clause key none = []
clause key (some value) = (key ++ value) ∷ []

unfoldable pub reference_clauses : List Entity → Option Reference → Result (List Text)
reference_clauses entities none = ok []
reference_clauses entities (some ref) = do
  target ← entity_of entities ref.entity
  column ← column_of target.fields ref.target
  ok (
      concat (lit "references " ∷ target.table ∷ lit " (" ∷ column ∷ lit ")" ∷ [])
        ∷ clause (lit "on update ") ref.on_update
      ++ clause (lit "on delete ") ref.on_delete)

-- The type of a column in a dialect.
unfoldable pub column_type : Dialect → Field → Result Text
column_type postgres field = postgres_type field
column_type sqlite field = ok (sqlite_type field)

-- `default value`, unless the value is `null` or empty.
unfoldable pub default_clause : Option Text → List Text
default_clause none = []
default_clause (some value) = if is_blank value then [] else (lit "default " ++ value) ∷ []

unfoldable pub sql_column : Dialect → List Entity → Field → Result Text
sql_column dialect entities field = do
  type ← column_type dialect field
  references ← reference_clauses entities field.db.references
  ok (
      join (lit " ") (
        concat (lit "  " ∷ field.column ∷ lit " " ∷ type ∷ [])
          ∷ (if field.nullable then [] else lit "not null" ∷ [])
        ++ default_clause (sql_default field dialect)
        ++ (if field.db.unique then lit "unique" ∷ [] else [])
        ++ references))
