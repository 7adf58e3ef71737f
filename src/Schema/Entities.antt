-- ===== src/Schema/Entities.antt =====
-- The part of `normalizeSchema` that reads one definition with a table.
use cliptown_lib_core.Prelude.{
  ℕ, suc, Bool, true, false, not, ◌&&◌, List, [], ◌∷◌, ◌++◌, Option, none, some, if◌then◌else◌,
  Result, ok, err, error, type_error, outside, ◌>>=◌, ◌>>◌, require, traverse, for_each, is_empty,
  is_some,
}
use cliptown_lib_core.Text.{Text, lit, text_eq, is_one_of, join, digits, is_blank}
use cliptown_lib_core.Json.{
  Json, null, str, arr, obj, Members, end, items, own, read, read?, as_text, truthy?, is_nullish,
}
use cliptown_lib_core.SqlGuard.{assert_identifier, assert_sql_expression}
use cliptown_lib_core.Schema.{Field, Index, Check}
use cliptown_lib_core.Schema.Fields.Db.{optional_expression, named}

-- `new Set(xs).size === xs.length`.
unfoldable pub distinct : List Text → Bool
distinct [] = true
distinct (x ∷ xs) = not (is_one_of x xs) && distinct xs

-- `definition.properties ?? {}`.
unfoldable pub properties_of : Option Json → Result Members
properties_of none = ok end
properties_of (some null) = ok end
properties_of (some (obj ms)) = ok ms
properties_of (some _) = err outside

-- `new Set(definition.required ?? [])`, as the list of its elements.
unfoldable pub required_of : Option Json → Result (List Text)
required_of none = ok []
required_of (some null) = ok []
required_of (some (arr vs)) = traverse as_text (items vs)
required_of (some (str s)) = err outside
required_of (some _) = err type_error

unfoldable pub is_own : Members → Text → Bool
is_own ms key = elim (own key ms) [ some v ↦ true | none ↦ false ]

-- `db.primaryKey ?? (properties.id ? ['id'] : [])`, which has to be a non-empty array.
unfoldable pub primary_key_of : Text → Members → Option Json → Result (List Text)
primary_key_of name properties (some (arr vs)) = do
  keys ← traverse as_text (items vs)
  require (not (is_empty keys)) (name ++ lit " requires x-db.primaryKey or an id property")
  ok keys
primary_key_of name properties raw = do
  require (is_nullish raw && truthy? (own (lit "id") properties))
      (name ++ lit " requires x-db.primaryKey or an id property")
  ok (lit "id" ∷ [])

-- `fieldMap.get(name)`.
unfoldable pub find_field : List Field → Text → Option Field
find_field [] name = none
find_field (f ∷ fs) name = if text_eq f.name name then some f else find_field fs name

-- `fieldMap.get(name).column`.
unfoldable pub column_of : List Field → Text → Result Text
column_of fields name = elim (find_field fields name) [
  | some f ↦ ok f.column
  | none ↦ err type_error
]

-- `if (!fieldMap.has(key)) fail(message)` for each key.
unfoldable pub known_field : List Field → Text → Text → Result (Unit {0})
known_field fields message key = require (is_some (find_field fields key)) (message ++ key)

unfoldable pub array_of : Text → Option Json → Result (List Json)
array_of message (some (arr vs)) = do require (not (is_empty (items vs))) message; ok (items vs)
array_of message _ = err (error message)

-- `index.name ?? …`.
unfoldable pub index_name : Text → List Field → List Text → Bool → Option Json → Result Text
index_name table fields keys unique given =
    if is_nullish given
    then (do
      columns ← traverse (column_of fields) keys
      ok (
          table
          ++ lit "_"
          ++ join (lit "_") columns
          ++ lit "_"
          ++ (if unique then lit "uq" else lit "idx")))
    else named given

-- The function that `normalizeSchema` maps over `db.indexes`, with the position of the index.
unfoldable pub normalize_index : Text → Text → List Field → ℕ → Json → Result Index
normalize_index entity table fields position index = do
  given ← read (lit "fields") index
  raw ← array_of (entity ++ lit " index " ++ digits position ++ lit " requires fields") given
  keys ← traverse as_text raw
  for_each (known_field fields (entity ++ lit " index references unknown field ")) keys
  let unique = truthy? (read? (lit "unique") (some index))
  name ← index_name table fields keys unique (read? (lit "name") (some index))
  assert_identifier name (entity ++ lit " index name")
  condition ←
      optional_expression (entity ++ lit "." ++ name ++ lit ".where")
        (read? (lit "where") (some index))
  ok (record { name = name; fields = keys; unique = unique; condition = condition })

unfoldable pub normalize_indexes : Text → Text → List Field → ℕ → List Json → Result (List Index)
normalize_indexes entity table fields position [] = ok []
normalize_indexes entity table fields position (index ∷ rest) = do
  i ← normalize_index entity table fields position index
  is ← normalize_indexes entity table fields (suc position) rest
  ok (i ∷ is)

-- How a template literal spells the name of a check.
unfoldable pub spell : Option Text → Text
spell none = lit "undefined"
spell (some s) = s

unfoldable pub check_name : Option Json → Result (Option Text)
check_name none = ok none
check_name (some v) = do s ← as_text v; ok (some s)

unfoldable pub check_expression : Text → Option Json → Result Text
check_expression label (some (str s)) = do
  require (not (is_blank s)) (label ++ lit " requires an expression")
  assert_sql_expression (str s) (label ++ lit ".expression")
check_expression label _ = err (error (label ++ lit " requires an expression"))

-- The function that `normalizeSchema` maps over `db.checks`.
unfoldable pub normalize_check : Text → Json → Result Check
normalize_check entity check = do
  given ← read (lit "name") check
  name ← check_name given
  assert_identifier (spell name) (entity ++ lit " check name")
  expression ←
      check_expression (entity ++ lit "." ++ spell name) (read? (lit "expression") (some check))
  ok (record { name = name; expression = expression })

-- `(value ?? []).map(…)`: the values, where `value` is an array.
unfoldable pub list_of : Option Json → Result (List Json)
list_of none = ok []
list_of (some null) = ok []
list_of (some (arr vs)) = ok (items vs)
list_of (some _) = err type_error
