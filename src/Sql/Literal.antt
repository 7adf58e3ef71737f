-- ===== src/Sql/Literal.antt =====
-- tools/schema-orm/sql.mjs, `sqlLiteral`: a string literal read back by the rule of SQL.
use cliptown_lib_core.Prelude.{
  ℕ, ◌≡◌, refl, ◌≢◌, Bool, true, false, [], ◌∷◌, ◌++◌, Option, none, some, ◌==◌, if◌then◌else◌,
  append_assoc, Bool-cases, arith, inl, inr,
}
use cliptown_lib_core.Text.{Text}
use cliptown_lib_core.Json.{str}
use cliptown_lib_core.SqlGuard.Grammar.{
  NotQuoteAhead, escape, escape-nil, escape-quote, escape-other,
}
use cliptown_lib_core.Sql.{sql_quote, sql_literal}

abbrev pub put_unit : ℕ → Option (Text × Text) → Option (Text × Text)
put_unit c none = none
put_unit c (some (s, rest)) = some (c ∷ s, rest)

-- The string of a literal and the text behind it: `read_body after text` reads behind the opening
-- quote, where `after` tells whether the unit before is a quote that may end the literal.
unfoldable pub read_body : Bool → Text → Option (Text × Text)
read_body false [] = none
read_body true [] = some ([], [])
read_body false (c ∷ s) = if c == b'\'' then read_body true s else put_unit c (read_body false s)
read_body true (c ∷ s) = if c == b'\'' then put_unit b'\'' (read_body false s) else some ([], c ∷ s)

unfoldable pub read_literal : Text → Option (Text × Text)
read_literal [] = none
read_literal (c ∷ s) = if c == b'\'' then read_body false s else none

read_body-end : (rest : Text) → NotQuoteAhead rest → read_body true rest ≡ some ([], rest)
unfolding read_body
read_body-end [] h = refl
read_body-end (c ∷ s) h = ground arith

read_body-escape :
    (s rest : Text)
    → NotQuoteAhead rest
    → read_body false (escape s ++ b'\'' ∷ rest) ≡ some (s, rest)
unfolding read_body
read_body-escape [] rest h = rw escape-nil (read_body-end rest h)
read_body-escape (c ∷ s) rest h = elim (Bool-cases (c == b'\'')) [
  | inl e ↦
      let same : c ≡ b'\'' = ground arith in
      rw (same, escape-quote s, read_body-escape s rest h) refl
  | inr e ↦
      let other : c ≢ b'\'' = λ same. ground arith in
      rw (escape-other c s other, e, read_body-escape s rest h) refl
]

-- The literal that the generator prints for a string is read back as that string, whatever the
-- string holds, and the reader stops where the literal ends, if no quote follows it.
pub read_literal-sql_literal :
    (s rest : Text)
    → NotQuoteAhead rest
    → read_literal (sql_literal (str s) ++ rest) ≡ some (s, rest)
unfolding read_literal sql_literal sql_quote
read_literal-sql_literal s rest h = rw append_assoc (read_body-escape s rest h)
