-- ===== src/SqlGuard.antt =====
-- tools/schema-orm/core.mjs: the tests that a fragment of SQL passes before it is written into
-- generated files. Each returns the string that it has checked.
mod Scan
pub mod Grammar
pub mod Expression
pub mod Safe
pub mod Types
unfoldable pub use Scan.*
use cliptown_lib_core.Prelude.{
  ℕ, Bool, true, false, not, ◌&&◌, ◌||◌, List, [], ◌∷◌, ◌++◌, ◌==◌, if◌then◌else◌, Result, ok, err,
  error, ◌>>=◌, ◌>>◌, require, any, all,
}
use cliptown_lib_core.Text.{
  Text, lit, is_one_of, includes, is_lower, is_alpha, is_alnum, is_digit, is_word, is_space,
  to_lower, is_blank, runs,
}
use cliptown_lib_core.Text.Regex.{
  Regex, one, seq, alt, many, char, some_of, optional, matches, empty,
}
use cliptown_lib_core.Json.{Json, str}

-- `IDENTIFIER.test(value)`.
unfoldable pub is_identifier : Text → Bool
unfolding is_lower is_digit all
is_identifier [] = false
is_identifier (c ∷ s) =
    (is_lower c || c == b'_') && all (λ d. is_lower d || is_digit d || d == b'_') s

unfoldable pub assert_identifier : Text → Text → Result (Unit {0})
unfolding is_identifier lit
assert_identifier value label =
    require (is_identifier value) (label ++ lit " must be a safe snake_case identifier: " ++ value)

-- The class of `/[\0\r\n\u2028\u2029]/u`.
unfoldable pub is_line_break : ℕ → Bool
is_line_break c = c == 0 || c == 13 || c == 10 || c == 0x2028 || c == 0x2029

unfoldable pub nonempty_message : Text → Text
unfolding lit
nonempty_message label = label ++ lit " must be a non-empty string"

unfoldable pub assert_single_line : Json → Text → Result Text
unfolding is_line_break any nonempty_message lit
assert_single_line (str s) label = do
  require (not (is_blank s)) (nonempty_message label)
  require (not (any is_line_break s)) (label ++ lit " must be a single line")
  ok s
assert_single_line _ label = err (error (nonempty_message label))

-- `/\b(?:words)\b/i.test(s)`: a longest run of word units is one of the words.
unfoldable pub has_word : List Text → Text → Bool
unfolding any is_one_of to_lower runs is_word
has_word words s = any (λ run. is_one_of (to_lower run) words) (runs is_word [] s)

-- The expression `SQL_TYPE`.
abbrev pub identifier_start : Regex
identifier_start = one (λ c. is_alpha c || c == b'_')

abbrev pub spaces : Regex
spaces = many (one is_space)

abbrev pub number : Regex
number = some_of (one is_digit)

unfoldable pub sql_type : Regex
unfolding is_alpha is_space is_digit is_alnum
sql_type = seq identifier_start (
    seq (many (one (λ c. is_alnum c || c == b'_' || c == b'.'))) (
      seq
        (many (
          seq (some_of (one is_space))
            (seq identifier_start (many (one (λ c. is_alnum c || c == b'_'))))))
        (seq
          (optional (
            seq (char b'(') (
              seq spaces (
                seq number (
                  seq (optional (seq spaces (seq (char b',') (seq spaces number))))
                    (seq spaces (char b')')))))))
          (many (seq (char b'[') (char b']'))))))

unfoldable pub type_clauses : List Text
unfolding lit
type_clauses =
    lit "check"
    ∷ lit "collate"
    ∷ lit "constraint"
    ∷ lit "default"
    ∷ lit "generated"
    ∷ lit "not"
    ∷ lit "null"
    ∷ lit "primary"
    ∷ lit "references"
    ∷ lit "unique"
    ∷ []

unfoldable pub check_type : Text → Text → Result Text
unfolding matches sql_type has_word type_clauses lit
check_type label s = do
  require (matches sql_type s && not (has_word type_clauses s))
      (label ++ lit " is not a safe SQL type fragment: " ++ s)
  ok s

unfoldable pub assert_sql_type : Json → Text → Result Text
unfolding assert_single_line check_type
assert_sql_type value label = do s ← assert_single_line value label; check_type label s

unfoldable pub statement_keywords : List Text
unfolding lit
statement_keywords =
    lit "alter"
    ∷ lit "call"
    ∷ lit "comment"
    ∷ lit "copy"
    ∷ lit "create"
    ∷ lit "delete"
    ∷ lit "do"
    ∷ lit "drop"
    ∷ lit "execute"
    ∷ lit "grant"
    ∷ lit "insert"
    ∷ lit "listen"
    ∷ lit "load"
    ∷ lit "merge"
    ∷ lit "notify"
    ∷ lit "revoke"
    ∷ lit "select"
    ∷ lit "security"
    ∷ lit "set"
    ∷ lit "truncate"
    ∷ lit "update"
    ∷ lit "vacuum"
    ∷ lit "with"
    ∷ []

-- `value.includes(';') || value.includes('--') || value.includes('/*') || value.includes('*/')`.
unfoldable pub has_terminator : Text → Bool
unfolding includes lit
has_terminator s =
    includes s (lit ";") || includes s (lit "--") || includes s (lit "/*") || includes s (lit "*/")

-- The tests behind the loop.
unfoldable pub finish_scan : Text → Text → Scanned → Result Text
unfolding has_word statement_keywords lit
finish_scan label s end = do
  require (not end.quoted) (label ++ lit " contains an unterminated SQL string literal")
  require (end.depth == 0) (label ++ lit " contains unbalanced parentheses")
  require (not (has_word statement_keywords end.unquoted))
      (label ++ lit " contains a statement-level SQL keyword")
  ok s

unfoldable pub scan_expression : Text → Text → Result Text
unfolding has_terminator scan finish_scan lit
scan_expression label s = do
  require (not (has_terminator s)) (label ++ lit " contains a statement terminator or SQL comment")
  end ← scan label false 0 [] s
  finish_scan label s end

unfoldable pub assert_sql_expression : Json → Text → Result Text
unfolding assert_single_line scan_expression
assert_sql_expression value label = do s ← assert_single_line value label; scan_expression label s
