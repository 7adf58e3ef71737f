-- ===== src/SqlGuard/Types.antt =====
-- What `assertSqlType` accepts.
use cliptown_lib_core.Prelude.{
  ℕ, ◌≡◌, ◌∙◌, ap, Bool, true, false, not, ◌&&◌, ◌||◌, arith, ◌==◌, ok, >>=-eq-ok, require->>-eq-ok,
  not-eq-true, and-eq-true, All, All-map,
}
use cliptown_lib_core.Text.{Text, is_space, is_alnum}
use cliptown_lib_core.Text.Regex.{matches}
use cliptown_lib_core.Text.Regex.Language.{Matches, matches_sound, occurs, Matches-occurs}
use cliptown_lib_core.Json.{Json, str}
use cliptown_lib_core.SqlGuard.{
  has_word, type_clauses, sql_type, assert_single_line, assert_sql_type, check_type,
}
use cliptown_lib_core.SqlGuard.Safe.{assert_single_line-str}

-- Letters, digits, white space and `_ . ( ) , [ ]`: no quote, no `;`, no `-`, no `/`, no `*`.
abbrev pub is_type_char : ℕ → Bool
is_type_char c =
    is_alnum c
    || c == b'_'
    || c == b'.'
    || is_space c
    || c == b'('
    || c == b')'
    || c == b','
    || c == b'['
    || c == b']'

sql_type_chars : (c : ℕ) → occurs sql_type c ≡ true → is_type_char c ≡ true
unfolding sql_type occurs is_alnum
sql_type_chars c h = ground arith

pub record IsSafeType (s : Text) : Type 0 where
  pub shape : Matches sql_type s
  pub chars : All (λ c. is_type_char c ≡ true) s
  pub no_clause : has_word type_clauses s ≡ false

check_type-IsSafeType : (label t s : Text) → check_type label t ≡ ok s → (t ≡ s) × IsSafeType t
unfolding check_type
check_type-IsSafeType label t s h =
    let (passed, same) =
      require->>-eq-ok (matches sql_type t && not (has_word type_clauses t)) _ (ok t) h in
    let (shape, free) = and-eq-true (matches sql_type t) (not (has_word type_clauses t)) passed in
    let language = matches_sound sql_type t shape in
    (
      cc,
      record {
        shape = language;
        chars = All-map sql_type_chars t (Matches-occurs language);
        no_clause = not-eq-true _ free;
      },
    )

-- A type that `assertSqlType` accepts is a string of the form that `SQL_TYPE` gives; all of its
-- units are letters, digits, white space or `_ . ( ) , [ ]`, and no run of word units is a clause
-- keyword.
pub assert_sql_type-IsSafeType :
    (value : Json) (label s : Text)
    → assert_sql_type value label ≡ ok s
    → (value ≡ str s) × IsSafeType s
unfolding assert_sql_type
assert_sql_type-IsSafeType value label s h =
    let (t, line, h1) = >>=-eq-ok (assert_single_line value label) (check_type label) h in
    let (same, safe) = check_type-IsSafeType label t s h1 in
    (assert_single_line-str value label t line ∙ ap str same, rw same at safe)
