-- ===== src/SqlGuard/Safe.antt =====
-- What `assertSqlExpression` accepts.
use cliptown_lib_core.Prelude.{
  ◌≡◌, ◌∙◌, true, false, not, [], arith, ok, ◌>>=◌, >>=-eq-ok, require->>-eq-ok, not-eq-true, ap,
}
use cliptown_lib_core.Text.{Text, lit}
use cliptown_lib_core.Text.Search.{Avoids, includes-Avoids}
use cliptown_lib_core.Json.{Json, null, bool, num, str, arr, obj}
use cliptown_lib_core.SqlGuard.{
  Scanned, scan, scan_expression, finish_scan, has_word, has_terminator, statement_keywords,
  assert_single_line, assert_sql_expression,
}
use cliptown_lib_core.SqlGuard.Grammar.{Lexes, Balanced}
use cliptown_lib_core.SqlGuard.Expression.{scan_sound}

-- What every fragment that the guard accepts is: it is the given string; it holds neither a
-- statement terminator nor a comment mark; its string literals are whole; outside of them its
-- parentheses nest with no comma at the top level, and no run of word units is a keyword.
pub record IsSafe (s : Text) : Type 0 where
  pub no_semicolon : Avoids s (lit ";")
  pub no_line_comment : Avoids s (lit "--")
  pub no_block_start : Avoids s (lit "/*")
  pub no_block_end : Avoids s (lit "*/")
  pub outside : Text
  pub lexes : Lexes s outside
  pub balanced : Balanced true outside
  pub no_keyword : has_word statement_keywords outside ≡ false

no_terminator :
    (s : Text)
    → has_terminator s ≡ false
    → Avoids s (lit ";") × Avoids s (lit "--") × Avoids s (lit "/*") × Avoids s (lit "*/")
unfolding has_terminator
no_terminator s h = (
  includes-Avoids s (lit ";") (ground arith),
  includes-Avoids s (lit "--") (ground arith),
  includes-Avoids s (lit "/*") (ground arith),
  includes-Avoids s (lit "*/") (ground arith),
)

pub assert_single_line-str :
    (value : Json) (label s : Text) → assert_single_line value label ≡ ok s → value ≡ str s
unfolding assert_single_line
assert_single_line-str (str t) label s h = ground arith
assert_single_line-str null label s h = cc
assert_single_line-str (bool _) label s h = cc
assert_single_line-str (num _) label s h = cc
assert_single_line-str (arr _) label s h = cc
assert_single_line-str (obj _) label s h = cc

finish_scan-eq-ok :
    (label t : Text) (r : Scanned) (s : Text)
    → finish_scan label t r ≡ ok s
    → (r.quoted ≡ false)
      × (r.depth ≡ 0)
      × (has_word statement_keywords r.unquoted ≡ false)
      × (t ≡ s)
unfolding finish_scan
finish_scan-eq-ok label t r s h = ground arith

IsSafe-of_scan :
    (label t : Text) (r : Scanned)
    → has_terminator t ≡ false
    → scan label false 0 [] t ≡ ok r
    → (r.quoted ≡ false) × (r.depth ≡ 0) × (has_word statement_keywords r.unquoted ≡ false)
    → IsSafe t
IsSafe-of_scan label t r clean e (quoted, depth, word) =
    let (w, same, (lexes, levels)) = scan_sound label false 0 [] t r e quoted depth in
    let (semicolon, line, start, stop) = no_terminator t clean in
    record {
      no_semicolon = semicolon;
      no_line_comment = line;
      no_block_start = start;
      no_block_end = stop;
      outside = w;
      lexes = lexes;
      balanced = levels;
      no_keyword = rw same at word;
    }

scan_expression-IsSafe : (label t s : Text) → scan_expression label t ≡ ok s → (t ≡ s) × IsSafe t
unfolding scan_expression
scan_expression-IsSafe label t s h =
    let (clean, h1) =
      require->>-eq-ok (not (has_terminator t)) _ (scan label false 0 [] t >>= finish_scan label t)
        h in
    let (r, scanned, h2) = >>=-eq-ok (scan label false 0 [] t) (finish_scan label t) h1 in
    let (quoted, depth, word, same) = finish_scan-eq-ok label t r s h2 in
    (same, IsSafe-of_scan label t r (not-eq-true _ clean) scanned (quoted, depth, word))

-- An expression that `assertSqlExpression` accepts is a string without statement terminators and
-- comment marks, whose string literals are whole and whose parentheses nest, with no comma outside
-- the parentheses and no statement keyword outside the literals.
pub assert_sql_expression-IsSafe :
    (value : Json) (label s : Text)
    → assert_sql_expression value label ≡ ok s
    → (value ≡ str s) × IsSafe s
unfolding assert_sql_expression
assert_sql_expression-IsSafe value label s h =
    let (t, line, h1) = >>=-eq-ok (assert_single_line value label) (scan_expression label) h in
    let (same, safe) = scan_expression-IsSafe label t s h1 in
    (assert_single_line-str value label t line ∙ ap str same, rw same at safe)
