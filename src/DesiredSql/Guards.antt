-- ===== src/DesiredSql/Guards.antt =====
-- scripts/verify-desired-sql-v3.mjs: a policy counts as guarded exactly where a DO block has begun and
-- no semicolon stands behind.
use cliptown_lib_core.Prelude.{◌≡◌, false, ◌++◌, some}
use cliptown_lib_core.Text.{Text}
use cliptown_lib_core.DesiredSql.{do_begin, has_semicolon}

-- A DO block has begun in the text, and no semicolon stands behind.
pub IsOpen : Text → Type 0
IsOpen before =
    (u : Text) × (v : Text) × (rest : Text) × (before ≡ u ++ v)
    × (do_begin v ≡ some rest)
    × (has_semicolon rest ≡ false)
