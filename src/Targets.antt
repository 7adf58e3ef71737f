-- ===== src/Targets.antt =====
-- The generators of tools/schema-orm beside SQL: each prints a model in one target language.
-- What they share: the mapping of kinds, quoted text, and the fields with references.
pub mod Rust
pub mod Drizzle
pub mod Prisma
pub mod TypeOrm
pub mod Gorm
pub mod Drift
pub mod Ent
pub mod Stormberry
pub mod Shared
use cliptown_lib_core.Prelude.{
  ℕ, Bool, true, false, ◌||◌, List, [], ◌∷◌, ◌++◌, map, Option, none, some, if◌then◌else◌, Result,
  ok, err, error, type_error, keep, any, is_some, traverse, ◌>>=◌, ◌>>◌,
}
use cliptown_lib_core.Text.{Text, lit, text_eq, is_one_of, join, replace_all, same_ignoring_case}
use cliptown_lib_core.Json.Stringify.{quote, string_of}
use cliptown_lib_core.Json.{Json}
use cliptown_lib_core.Schema.Entities.{find_field}
use cliptown_lib_core.Schema.{Field, Reference, Entity, Model}
use cliptown_lib_core.Sql.{is_kind, has_format, generated_header, sql_quote}

-- The chain of tests on `field.kind` that every generator has, with a result for each kind:
-- strings, integers, numbers, Booleans, objects and arrays. Any other kind is refused.
unfoldable pub by_kind {ℓ} :
    {A : Type ℓ} (refusal : Text) (field : Field) (string integer number boolean object array : A)
    → Result A
by_kind refusal field string integer number boolean object array =
    if is_kind field (lit "string")
    then ok string
    else if is_kind field (lit "integer")
    then ok integer
    else if is_kind field (lit "number")
    then ok number
    else if is_kind field (lit "boolean")
    then ok boolean
    else if is_kind field (lit "object")
    then ok object
    else if is_kind field (lit "array")
    then ok array
    else err (error refusal)

-- A string's result by its format.
unfoldable pub by_format {ℓ} : {A : Type ℓ} → Field → (uuid date_time other : A) → A
by_format field uuid date_time other =
    if has_format field (lit "uuid")
    then uuid
    else if has_format field (lit "date-time")
    then date_time
    else other

-- `// ${GENERATED_HEADER}`.
abbrev pub header_line : Text
header_line = lit "// " ++ generated_header

-- `entity.fields.filter((field) => field.db.references)`.
unfoldable pub relation_fields : Entity → List Field
relation_fields entity = keep (λ f. is_some f.db.references) entity.fields

unfoldable pub is_key : Entity → Field → Bool
is_key entity field = is_one_of field.name entity.primary_key

-- `primaryKey.length === 1 && primaryKey[0] === name`.
unfoldable pub is_only_key : Entity → Text → Bool
is_only_key entity name = elim entity.primary_key [
  | [] ↦ false
  | k ∷ ks ↦ elim ks [ [] ↦ text_eq k name | _ ∷ _ ↦ false ]
]

-- `description.replaceAll('\n', ' ')`.
unfoldable pub one_line : Text → Text
one_line description = replace_all 10 (b' ' ∷ []) description

-- `/^(now\(\)|current_timestamp)$/i.test(value)`.
unfoldable pub is_now : Text → Bool
is_now value =
    same_ignoring_case value (lit "now()") || same_ignoring_case value (lit "current_timestamp")

-- Whether a field of the model passes a test.
unfoldable pub any_field : (Field → Bool) → Model → Bool
any_field p model = any (λ entity. any p entity.fields) model.entities

-- The single element where a test holds.
unfoldable pub when {ℓ} : {A : Type ℓ} → Bool → A → List A
when b a = if b then a ∷ [] else []

-- An array of one value for an option, printed by a function.
unfoldable pub option_list {ℓ κ} : {A : Type ℓ} {B : Type κ} → (A → B) → Option A → List B
option_list f none = []
option_list f (some a) = f a ∷ []

-- `fieldMap.get(name)` where a member of the result is read.
unfoldable pub field_of : List Field → Text → Result Field
field_of fields name = elim (find_field fields name) [ some f ↦ ok f | none ↦ err type_error ]

-- `JSON.stringify(checkSpec.name)` in a template: an absent name prints `undefined`.
unfoldable pub quote_name : Option Text → Text
quote_name none = lit "undefined"
quote_name (some name) = quote name

-- The fields with references, each with its reference.
unfoldable pub relations_of : List Field → List (Field × Reference)
relations_of [] = []
relations_of (f ∷ fs) = elim f.db.references [
  | none ↦ relations_of fs
  | some r ↦ (f, r) ∷ relations_of fs
]

-- `values.map((value) => JSON.stringify(value)).join(', ')`.
unfoldable pub quotes : List Text → Text
quotes values = join (lit ", ") (map quote values)

-- The allowed values of an `enum`, each `String(value)` as an SQL string.
unfoldable pub literals : List Json → Result Text
literals values = do texts ← traverse string_of values; ok (join (lit ", ") (map sql_quote texts))
