-- ===== src/Sql/Columns.antt =====
-- tools/schema-orm/sql.mjs, `generateSql`: the statements of a whole model.
use mathlib.Core.List.{flat_map}
use cliptown_lib_core.Prelude.{
  ℕ, Bool, false, ◌||◌, List, [], ◌∷◌, ◌++◌, map, Option, none, some, ◌==◌, if◌then◌else◌, Result,
  ok, ◌>>=◌, traverse, is_empty,
}
use cliptown_lib_core.Text.{Text, lit, join, concat, squeeze, is_blank}
use cliptown_lib_core.Schema.{Field, Index, Check, Entity, Model}
use cliptown_lib_core.Schema.Entities.{column_of, spell}
use cliptown_lib_core.Topology.{topological_entities}
use cliptown_lib_core.Sql.{
  Dialect, dialect_name, generated_header, finish_lines, sql_literal, sql_column,
}

-- The class of `/[\r\n\u2028\u2029]+/gu`.
unfoldable pub is_paragraph_break : ℕ → Bool
is_paragraph_break c = c == 13 || c == 10 || c == 0x2028 || c == 0x2029

unfoldable pub comma_list : List Text → Text
comma_list texts = join (lit ", ") texts

-- The columns of some fields, by name.
unfoldable pub columns_of : Entity → List Text → Result Text
columns_of entity keys = do
  columns ← traverse (column_of entity.fields) keys
  ok (comma_list columns)

unfoldable pub enum_clause : Entity → Field → List Text
enum_clause entity field =
    if is_empty field.property.choices
    then []
    else concat (
        lit "  constraint "
        ∷ entity.table
        ∷ lit "_"
        ∷ field.column
        ∷ lit "_chk check ("
        ∷ field.column
        ∷ lit " in ("
        ∷ comma_list (map sql_literal field.property.choices)
        ∷ lit "))"
        ∷ [])
      ∷ []

unfoldable pub check_clause : Check → Text
check_clause check =
    concat
      (lit "  constraint " ∷ spell check.name ∷ lit " check (" ∷ check.expression ∷ lit ")" ∷ [])

unfoldable pub where_clause : Option Text → Text
where_clause none = []
where_clause (some condition) = lit " where " ++ condition

unfoldable pub index_statement : Entity → Index → Result Text
index_statement entity index = do
  fields ← columns_of entity index.fields
  ok (
      concat (
        lit "create "
        ∷ (if index.unique then lit "unique " else [])
        ∷ lit "index if not exists "
        ∷ index.name
        ∷ lit " on "
        ∷ entity.table
        ∷ lit " ("
        ∷ fields
        ∷ lit ")"
        ∷ where_clause index.condition
        ∷ lit ";"
        ∷ []))

-- The lines of one entity: the body of the loop.
unfoldable pub entity_lines : Dialect → List Entity → Entity → Result (List Text)
entity_lines dialect entities entity = do
  columns ← traverse (sql_column dialect entities) entity.fields
  key ← columns_of entity entity.primary_key
  statements ← traverse (index_statement entity) entity.indexes
  ok (
      (if is_blank entity.description
        then []
        else (lit "-- " ++ squeeze is_paragraph_break b' ' false entity.description) ∷ [])
      ++ concat (lit "create table if not exists " ∷ entity.table ∷ lit " (" ∷ [])
        ∷ join (lit ",\n") (
            columns
            ++ concat (lit "  primary key (" ∷ key ∷ lit ")" ∷ [])
              ∷ flat_map (enum_clause entity) entity.fields
            ++ map check_clause entity.checks)
        ∷ lit ");"
        ∷ []
        ∷ statements
      ++ (if is_empty entity.indexes then [] else [] ∷ []))

unfoldable pub generate_sql : (Text → Text → Bool) → Model → Dialect → Result Text
generate_sql le model dialect = do
  bodies ← traverse (entity_lines dialect model.entities) (topological_entities le model.entities)
  ok (
      finish_lines (
        (lit "-- " ++ generated_header)
        ∷ (lit "-- Product: " ++ model.product)
        ∷ (lit "-- Dialect: " ++ dialect_name dialect)
        ∷ []
        ∷ flat_map (λ body. body) bodies))
