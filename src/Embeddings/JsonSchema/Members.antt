-- ===== src/Embeddings/JsonSchema/Members.antt =====
-- scripts/embeddings/generate.mjs, `jsonSchema`: objects and their members.
use cliptown_lib_core.Prelude.{ℕ, ◌∷◌, List, Option, none, some, if◌then◌else◌, []}
use cliptown_lib_core.Text.{Text, lit, text_eq}
use cliptown_lib_core.Embeddings.{ExtraColumn, is_timestamp}
use cliptown_lib_core.Embeddings.Spelling.{camel}
use cliptown_lib_core.Json.{Json, num, obj, plus, str, text_array}
use cliptown_lib_core.Json.Canonical.{from_entries, members}

-- An object with the given members, whose names are distinct and no array indexes.
unfoldable pub object : List (Text × Json) → Json
unfolding members
object es = obj (members es)

-- A member written again keeps its place.
unfoldable pub put : Text → Json → List (Text × Json) → List (Text × Json)
unfolding text_eq
put k v [] = (k, v) ∷ []
put k v ((j, u) ∷ es) = if text_eq j k then (j, v) ∷ es else (j, u) ∷ put k v es

unfoldable pub put_all : List (Text × Json) → List (Text × Json) → List (Text × Json)
unfolding put
put_all before [] = before
put_all before ((k, v) ∷ es) = put_all (put k v before) es

-- An object where names are computed.
unfoldable pub computed : List (Text × Json) → Json
unfolding put_all from_entries
computed es = obj (from_entries (put_all [] es))

unfoldable pub count : ℕ → Json
count n = num (plus n)

unfoldable pub ref : Text → Json
unfolding object lit
ref target = object ((lit "$ref", str target) ∷ [])

-- `c.note ?? ''`.
unfoldable pub note_or_empty : Option Text → Text
note_or_empty none = []
note_or_empty (some note) = note

-- `[camel(c.name), { … }]`.
unfoldable pub extra_property : ExtraColumn → Text × Json
extra_property c = (
  camel c.name,
  object (
      (
        lit "type",
        if c.not_null then str (lit "string") else text_array (lit "string" ∷ lit "null" ∷ []),
      )
      ∷ (lit "format", str (if is_timestamp c then lit "date-time" else lit "uuid"))
      ∷ (lit "description", str (note_or_empty c.note))
      ∷ []),
)
