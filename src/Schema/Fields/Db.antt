-- ===== src/Schema/Fields/Db.antt =====
-- The part of `normalizeSchema` that reads the `x-db` keywords of a property.
use cliptown_lib_core.Prelude.{
  Bool, false, List, [], ◌∷◌, ◌++◌, Option, none, some, if◌then◌else◌, Result, ok, err, error,
  type_error, outside, ◌>>=◌, ◌>>◌, require, traverse,
}
use cliptown_lib_core.Text.{Text, lit, is_one_of, to_lower, is_blank}
use cliptown_lib_core.Json.{
  Json, null, str, obj, Members, entries, own, read?, truthy, truthy?, is_inherited, as_text,
}
use cliptown_lib_core.SqlGuard.{assert_sql_type, assert_sql_expression}
use cliptown_lib_core.Schema.{Reference, FieldDb}

-- `if (value !== undefined) assert(value, label)`.
unfoldable pub optional_type : Text → Option Json → Result (Option Text)
optional_type label none = ok none
optional_type label (some v) = do s ← assert_sql_type v label; ok (some s)

unfoldable pub optional_expression : Text → Option Json → Result (Option Text)
optional_expression label none = ok none
optional_expression label (some v) = do s ← assert_sql_expression v label; ok (some s)

abbrev pub dialects : List Text
dialects = lit "postgres" ∷ lit "sqlite" ∷ []

unfoldable pub dialect_default : Text → Text × Json → Result (Text × Text)
dialect_default label (dialect, expression) = do
  require (is_one_of dialect dialects) (label ++ lit " has unsupported dialect " ++ dialect)
  s ← assert_sql_expression expression (label ++ lit "." ++ dialect)
  ok (dialect, s)

unfoldable pub dialect_defaults : Text → Option Json → Result (List (Text × Text))
dialect_defaults label none = ok []
dialect_defaults label (some (obj ms)) = traverse (dialect_default label) (entries ms)
dialect_defaults label (some _) = err (error (label ++ lit " must be an object"))

-- `Boolean(members[key])` for any key: a name that the members lack may be inherited.
unfoldable pub has_member : Text → Members → Bool
has_member key ms = elim (own key ms) [ some v ↦ truthy v | none ↦ is_inherited key ]

-- `Boolean(defs[entity].properties?.[field])`, where `has_member entity defs`.
unfoldable pub has_property : Members → Text → Text → Result Bool
has_property defs entity field = elim (read? (lit "properties") (own entity defs)) [
  | none ↦ ok false
  | some null ↦ ok false
  | some (obj ps) ↦ ok (has_member field ps)
  | _ ↦ err outside
]

abbrev pub safe_actions : List Text
safe_actions = lit "cascade" ∷ lit "restrict" ∷ lit "set null" ∷ lit "no action" ∷ []

-- One round of the loop over `onDelete` and `onUpdate`.
unfoldable pub reference_action : Text → Text → Option Json → Result (Option Text)
reference_action label key (some (str s)) = if is_blank s then ok none else do
  require (is_one_of (to_lower s) safe_actions)
      (label ++ lit " has unsupported " ++ key ++ lit ": " ++ s)
  ok (some s)
reference_action label key action = if truthy? action then err type_error else ok none

unfoldable pub named : Option Json → Result Text
named none = err outside
named (some v) = as_text v

unfoldable pub normalize_reference : Members → Text → Option Json → Result Reference
normalize_reference defs label ref = do
  entity ← named (read? (lit "entity") ref)
  require (has_member entity defs) (label ++ lit " references unknown entity " ++ entity)
  field ← named (read? (lit "field") ref)
  found ← has_property defs entity field
  require found (label ++ lit " references unknown field " ++ entity ++ lit "." ++ field)
  on_delete ← reference_action label (lit "onDelete") (read? (lit "onDelete") ref)
  on_update ← reference_action label (lit "onUpdate") (read? (lit "onUpdate") ref)
  ok (record { entity = entity; target = field; on_delete = on_delete; on_update = on_update })

unfoldable pub optional_reference : Members → Text → Option Json → Result (Option Reference)
optional_reference defs label ref =
    if truthy? ref then (do r ← normalize_reference defs label ref; ok (some r)) else ok none

unfoldable pub normalize_db : Members → Text → Option Json → Result FieldDb
normalize_db defs label db = do
  postgres ← optional_type (label ++ lit ".x-db.postgresType") (read? (lit "postgresType") db)
  sqlite ← optional_type (label ++ lit ".x-db.sqliteType") (read? (lit "sqliteType") db)
  initial ← optional_expression (label ++ lit ".x-db.default") (read? (lit "default") db)
  by_dialect ←
      dialect_defaults (label ++ lit ".x-db.defaultByDialect") (read? (lit "defaultByDialect") db)
  references ← optional_reference defs label (read? (lit "references") db)
  ok (record {
    postgres_type = postgres;
    sqlite_type = sqlite;
    initial = initial;
    initial_by_dialect = by_dialect;
    unique = truthy? (read? (lit "unique") db);
    references = references;
  })
