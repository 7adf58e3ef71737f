-- ===== src/SqlGuard/Scan.antt =====
-- The loop of `assertSqlExpression`, with its three variables and its early failures.
use cliptown_lib_core.Prelude.{
  ℕ, ◌+◌, ◌-◌, Bool, true, false, ◌&&◌, [], ◌∷◌, ◌++◌, ◌==◌, if◌then◌else◌, Result, ok, err, error,
}
use cliptown_lib_core.Text.{Text, lit}

pub record Scanned : Type 0 where
  pub quoted : Bool
  pub depth : ℕ
  pub unquoted : Text

unfoldable pub closes_outside : Text → Text
unfolding lit
closes_outside label = label ++ lit " closes a parenthesis outside its expression"

unfoldable pub top_level_comma : Text → Text
unfolding lit
top_level_comma label = label ++ lit " contains a top-level comma that could escape its SQL clause"

-- `scan quoted depth unquoted rest` is the loop from one index on. Inside a string literal a
-- doubled quote takes two units in one round. The depth is tested before it is lowered, since a
-- natural number does not fall below zero.
unfoldable pub scan : Text → Bool → ℕ → Text → Text → Result Scanned
unfolding closes_outside top_level_comma
scan label true depth unquoted [] =
    ok (record { quoted = true; depth = depth; unquoted = unquoted })
scan label true depth unquoted (c ∷ []) =
    ok (record { quoted = if c == b'\'' then false else true; depth = depth; unquoted = unquoted })
scan label true depth unquoted (c ∷ next ∷ rest) =
    let doubled = scan label true depth unquoted rest in
    let closed = scan label false depth unquoted (next ∷ rest) in
    let inside = scan label true depth unquoted (next ∷ rest) in
    if c == b'\'' && next == b'\'' then doubled else if c == b'\'' then closed else inside
scan label false depth unquoted [] =
    ok (record { quoted = false; depth = depth; unquoted = unquoted })
scan label false depth unquoted (c ∷ rest) =
    let literal = scan label true depth (unquoted ++ b'\'' ∷ b'\'' ∷ []) rest in
    let opened = scan label false (depth + 1) (unquoted ++ c ∷ []) rest in
    let closed = scan label false (depth - 1) (unquoted ++ c ∷ []) rest in
    let plain = scan label false depth (unquoted ++ c ∷ []) rest in
    if c == b'\''
    then literal
    else if c == b'('
    then opened
    else if c == b')'
    then (if depth == 0 then err (error (closes_outside label)) else closed)
    else if c == b',' && depth == 0
    then err (error (top_level_comma label))
    else plain
