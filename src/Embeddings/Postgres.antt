-- ===== src/Embeddings/Postgres.antt =====
-- scripts/embeddings/generate.mjs: the PostgreSQL schema, and its two halves around the sentinel.
pub mod Registry
pub mod Functions
pub mod Table
pub mod Indexes
use cliptown_lib_core.Prelude.{
  ℕ, zero, suc, ◌+◌, ◌∷◌, ◌||◌, List, ◌++◌, Option, none, some, if◌then◌else◌, Result, ok, err,
  error, ◌==◌, [],
}
use cliptown_lib_core.Text.{Text, lit, text_eq}
use cliptown_lib_core.Embeddings.{Setup}
use cliptown_lib_core.Embeddings.Spelling.{unlines}
use cliptown_lib_core.Embeddings.Postgres.Registry.{model_registry, postgres_opening, registry_rows}
use cliptown_lib_core.Embeddings.Postgres.Functions.{check_functions, width_functions}
use cliptown_lib_core.Embeddings.Postgres.Table.{
  table_constraints, table_opening, text_columns, vector_columns,
}
use cliptown_lib_core.Embeddings.Postgres.Indexes.{
  candidate_indexes, commit_lines, lookup_indexes, touch_trigger,
}
use cliptown_lib_core.Text.Cut.{after_word, cut_at, cut}

-- `SPLIT`.
abbrev pub split_mark : Text
split_mark = lit "--@@SCHEMA-SPLIT@@"

-- The lines before the sentinel, and behind it.
unfoldable pub first_lines : Setup → List Text
first_lines s =
    postgres_opening s
    ++ model_registry s
    ++ registry_rows s
    ++ width_functions s
    ++ check_functions s

unfoldable pub body_lines : Setup → List Text
body_lines s =
    table_opening s
    ++ vector_columns s
    ++ text_columns s
    ++ table_constraints s
    ++ candidate_indexes s
    ++ lookup_indexes s
    ++ touch_trigger s

unfoldable pub second_lines : Setup → List Text
unfolding body_lines
second_lines s = body_lines s ++ commit_lines

-- `postgres` as it is first assembled.
unfoldable pub postgres_source : Setup → Text
unfolding first_lines second_lines unlines
postgres_source s = unlines (first_lines s ++ split_mark ∷ second_lines s)

unfoldable pub drop : ℕ → Text → Text
drop zero s = s
drop (suc n) [] = []
drop (suc n) (c ∷ s) = drop n s

unfoldable pub behind : Text → Option (Text × Text) → Text
unfolding drop
behind text none = drop 5 text
behind text (some (before, rest)) = rest

-- `text.slice(text.indexOf('begin;') + 'begin;'.length)`: an index of -1 leaves a slice from 5.
unfoldable pub behind_begin : Text → Text
unfolding behind cut lit
behind_begin text = behind text (cut (lit "begin;") text)

-- `text.replace(/\ncommit;\n?$/, '')`.
unfoldable pub without_commit : Text → Text
unfolding text_eq lit
without_commit [] = []
without_commit (c ∷ s) =
    let rest = without_commit s in
    if text_eq (c ∷ s) (lit "\ncommit;\n") || text_eq (c ∷ s) (lit "\ncommit;")
    then []
    else c ∷ rest

-- `pgBody`.
unfoldable pub pg_body : Setup → Text
unfolding without_commit behind_begin postgres_source
pg_body s = without_commit (behind_begin (postgres_source s))

unfoldable pub before_cut : Text → Option (Text × Text) → Text
before_cut text none = text
before_cut text (some (before, rest)) = before

unfoldable pub parts_at : Option (Text × Text) → Result (Text × Text)
unfolding before_cut cut lit
parts_at none = err (error (lit "schema split sentinel missing"))
parts_at (some (before, rest)) = ok (before, before_cut rest (cut split_mark rest))

-- `const [pgPartA, pgPartB] = pgBody.split(SPLIT)` and the test behind it.
unfoldable pub pg_parts : Text → Result (Text × Text)
unfolding parts_at cut lit
pg_parts body = parts_at (cut split_mark body)

unfoldable pub joined : Text → Option (Text × Text) → Text
joined text none = text
joined text (some (before, rest)) = before ++ rest

-- `postgres.replace(SPLIT + '\n', '')`.
unfoldable pub postgres : Setup → Text
unfolding joined cut postgres_source lit
postgres s = joined (postgres_source s) (cut (split_mark ++ 10 ∷ []) (postgres_source s))
