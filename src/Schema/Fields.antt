-- ===== src/Schema/Fields.antt =====
-- The part of `normalizeSchema` that reads one property of an entity.
pub mod Db
use cliptown_lib_core.Prelude.{
  ℕ, ◌≤◌, Bool, true, false, not, ◌&&◌, ◌||◌, List, [], ◌∷◌, ◌++◌, Option, none, some, ltb, leb,
  ◌==◌, if◌then◌else◌, Result, ok, err, error, type_error, outside, ◌>>=◌, ◌>>◌, require, traverse,
  any, keep,
}
use cliptown_lib_core.Text.{Text, lit, is_one_of}
use cliptown_lib_core.Names.{snake_case}
use cliptown_lib_core.Json.{
  Json, null, bool, num, str, arr, obj, plus, Members, items, read, read?, is_text, is_array,
  as_text, text_or, max_safe, truthy?,
}
use cliptown_lib_core.Json.Stringify.{stringify}
use cliptown_lib_core.SqlGuard.{assert_identifier}
use cliptown_lib_core.Schema.{Property, Field}
use cliptown_lib_core.Schema.Fields.Db.{normalize_db}

-- `normalizedTypes`: the values of `type`, without `null`.
unfoldable pub normalized_types : Option Json → List Json
normalized_types (some (arr vs)) = keep (λ v. not (is_text (some v) (lit "null"))) (items vs)
normalized_types raw = elim raw [
  | none ↦ []
  | some v ↦
      if truthy? (some v) then keep (λ w. not (is_text (some w) (lit "null"))) (v ∷ []) else []
]

unfoldable pub one_kind : Json → List Json → Result Text
one_kind property (kind ∷ []) = as_text kind
one_kind property types =
    err (error (lit "property must have exactly one non-null JSON type: " ++ stringify property))

unfoldable pub property_kind : Json → Result Text
property_kind property = do
  raw ← read (lit "type") property
  one_kind property (normalized_types raw)

unfoldable pub is_nullable : Option Json → Bool → Bool
is_nullable (some (arr vs)) required =
    not required || any (λ v. is_text (some v) (lit "null")) (items vs)
is_nullable raw required = not required

-- `maxLength`: absent, or a positive safe integer.
unfoldable pub length_limit : Text → Option Json → Result (Option ℕ)
length_limit label none = ok none
length_limit label (some (num (plus n))) = do
  require (leb n max_safe && not (n == 0)) (label ++ lit " must be a positive safe integer")
  ok (some n)
length_limit label (some _) = err (error (label ++ lit " must be a positive safe integer"))

unfoldable pub enum_values : Option Json → Result (List Json)
enum_values (some (arr vs)) = ok (items vs)
enum_values (some (str s)) = err outside
enum_values _ = ok []

unfoldable pub format_of : Option Json → Option Text
format_of (some (str s)) = some s
format_of _ = none

-- The function that `normalizeSchema` maps over `Object.entries(properties)`. A column that is neither
-- missing nor a string ends in `outside`: the code accepts it where its text is an identifier, and
-- compares it by identity later on.
unfoldable pub normalize_field : Members → Text → List Text → Text × Json → Result Field
normalize_field defs entity required (name, property) = do
  let label = entity ++ lit "." ++ name
  db ← read (lit "x-db") property
  column ← text_or (snake_case name) (read? (lit "column") db)
  assert_identifier column (label ++ lit ".x-db.column")
  kind ← property_kind property
  max_length ← length_limit (label ++ lit ".maxLength") (read? (lit "maxLength") (some property))
  db' ← normalize_db defs label db
  choices ← enum_values (read? (lit "enum") (some property))
  ok (record {
    name = name;
    column = column;
    property = record {
      format = format_of (read? (lit "format") (some property));
      max_length = max_length;
      initial = read? (lit "default") (some property);
      choices = choices;
    };
    db = db';
    kind = kind;
    required = is_one_of name required;
    nullable = is_nullable (read? (lit "type") (some property)) (is_one_of name required);
  })
