-- ===== src/Names/Languages.antt =====
-- tools/schema-orm/core.mjs: the names of fields in Rust, TypeScript, Go and Dart, which step out
-- of the way of each language's reserved words.
use cliptown_lib_core.Prelude.{
  ◌==◌, ◌≡◌, refl, Bool, false, ◌&&◌, List, [], ◌∷◌, ◌++◌, if◌then◌else◌,
}
use cliptown_lib_core.Text.{Text, lit, is_one_of, is_upper}
use cliptown_lib_core.Text.Replace.{replace_at, replace_text}
use cliptown_lib_core.Names.{snake_case, pascal_case, camel_case}

unfoldable pub rust_reserved : List Text
unfolding lit
rust_reserved =
    lit "type"
    ∷ lit "match"
    ∷ lit "ref"
    ∷ lit "self"
    ∷ lit "crate"
    ∷ lit "super"
    ∷ lit "mod"
    ∷ lit "use"
    ∷ lit "enum"
    ∷ lit "struct"
    ∷ lit "fn"
    ∷ lit "impl"
    ∷ lit "async"
    ∷ lit "await"
    ∷ lit "move"
    ∷ lit "where"
    ∷ lit "loop"
    ∷ lit "in"
    ∷ lit "as"
    ∷ lit "dyn"
    ∷ []

unfoldable pub rust_name : Text → Text
unfolding snake_case rust_reserved is_one_of lit
rust_name value =
    let candidate = snake_case value in
    if is_one_of candidate rust_reserved then lit "r#" ++ candidate else candidate

unfoldable pub ts_reserved : List Text
unfolding lit
ts_reserved =
    lit "class"
    ∷ lit "function"
    ∷ lit "default"
    ∷ lit "export"
    ∷ lit "import"
    ∷ lit "delete"
    ∷ lit "new"
    ∷ lit "var"
    ∷ lit "let"
    ∷ lit "const"
    ∷ lit "extends"
    ∷ lit "implements"
    ∷ lit "interface"
    ∷ lit "package"
    ∷ lit "private"
    ∷ lit "public"
    ∷ lit "protected"
    ∷ lit "static"
    ∷ []

-- `reserved.has(candidate) ? `${candidate}Value` : candidate`.
unfoldable pub avoid : List Text → Text → Text
unfolding is_one_of lit
avoid reserved candidate =
    if is_one_of candidate reserved then candidate ++ lit "Value" else candidate

unfoldable pub ts_name : Text → Text
unfolding camel_case ts_reserved avoid
ts_name value = avoid ts_reserved (camel_case value)

-- What `/Id(?=$|[A-Z])/` asks of the text from a position on.
unfoldable pub is_final_id : Text → Bool
unfolding is_upper
is_final_id [] = false
is_final_id (a ∷ []) = false
is_final_id (a ∷ b ∷ []) = a == b'I' && b == b'd'
is_final_id (a ∷ b ∷ c ∷ s) = a == b'I' && b == b'd' && is_upper c

unfoldable pub go_reserved : List Text
unfolding lit
go_reserved = lit "Type" ∷ lit "Map" ∷ lit "String" ∷ lit "Error" ∷ lit "Any" ∷ []

unfoldable pub go_name : Text → Text
unfolding pascal_case replace_text replace_at is_final_id go_reserved avoid lit
go_name value =
    let api = replace_text (lit "Api") (lit "API") (pascal_case value) in
    let vcs = replace_text (lit "Vcs") (lit "VCS") api in
    let sha = replace_text (lit "Sha256") (lit "SHA256") vcs in
    let url = replace_text (lit "Url") (lit "URL") sha in
    let ip = replace_text (lit "Ip") (lit "IP") url in
    avoid go_reserved (replace_at is_final_id 2 (lit "ID") 0 ip)

unfoldable pub dart_reserved : List Text
unfolding lit
dart_reserved =
    lit "class"
    ∷ lit "enum"
    ∷ lit "extension"
    ∷ lit "mixin"
    ∷ lit "with"
    ∷ lit "on"
    ∷ lit "base"
    ∷ lit "interface"
    ∷ lit "final"
    ∷ lit "sealed"
    ∷ lit "when"
    ∷ lit "switch"
    ∷ lit "case"
    ∷ lit "default"
    ∷ lit "import"
    ∷ lit "export"
    ∷ lit "part"
    ∷ []

unfoldable pub dart_name : Text → Text
unfolding camel_case dart_reserved avoid
dart_name value = avoid dart_reserved (camel_case value)

-- The names that the checked-in schema turns into Go, Rust and TypeScript.
go_names_runs :
    (go_name (lit "userId") ≡ lit "UserID")
    × (go_name (lit "content_sha256") ≡ lit "ContentSHA256")
    × (rust_name (lit "type") ≡ lit "r#type")
    × (ts_name (lit "default") ≡ lit "defaultValue")
unfolding go_name rust_name ts_name
go_names_runs = (refl, refl, refl, refl)
