-- ===== src/Schema/WellFormed/Fields.antt =====
-- The part of `normalizeSchema` that reads a property, with what its results satisfy.
use cliptown_lib_core.Prelude.{
  ℕ, ◌≤◌, ◌<◌, ◌≡◌, true, not, ◌&&◌, ◌||◌, List, [], ◌∷◌, Option, none, some, ◌==◌, leb, arith, All,
  OnSome, all_sound, and-eq-true, ok, require-eq-ok,
}
use cliptown_lib_core.Prelude.Outcomes.{
  Ensures, Ensures-ok, Ensures-err, Ensures-require, Ensures-then, Ensures-bind, Ensures-step,
  Ensures-traverse,
}
use cliptown_lib_core.Text.{Text, is_lower}
use cliptown_lib_core.Text.Equality.{is_one_of→IsIn, IsIn}
use cliptown_lib_core.Json.{
  Json, null, bool, num, str, arr, obj, plus, minus, double, Members, max_safe, entries, read,
  text_or,
}
use cliptown_lib_core.SqlGuard.{
  assert_sql_type, assert_sql_expression, assert_identifier, is_identifier,
}
use cliptown_lib_core.SqlGuard.Safe.{IsSafe, assert_sql_expression-IsSafe}
use cliptown_lib_core.SqlGuard.Types.{IsSafeType, assert_sql_type-IsSafeType}
use cliptown_lib_core.Schema.{FieldDb}
use cliptown_lib_core.Schema.Fields.{normalize_field, length_limit, property_kind, enum_values}
use cliptown_lib_core.Schema.Fields.Db.{
  dialects, optional_type, optional_expression, dialect_default, dialect_defaults, normalize_db,
  optional_reference,
}
use cliptown_lib_core.Schema.WellFormed.{IsIdentifier, FieldIsSafe}

pub is_identifier-IsIdentifier : (s : Text) → is_identifier s ≡ true → IsIdentifier s
unfolding is_identifier
is_identifier-IsIdentifier [] h = absurd (cc)
is_identifier-IsIdentifier (c ∷ s) h =
    let (head, tail) = and-eq-true (is_lower c || c == b'_') _ h in (head, all_sound _ s tail)

pub assert_identifier-IsIdentifier :
    (s label : Text) → assert_identifier s label ≡ ok tt → IsIdentifier s
unfolding assert_identifier
assert_identifier-IsIdentifier s label h =
    is_identifier-IsIdentifier s (require-eq-ok (is_identifier s) _ h)

pub sql_type_lem : (v : Json) (label : Text) → Ensures IsSafeType (assert_sql_type v label)
sql_type_lem v label = record { at = λ s e. (assert_sql_type-IsSafeType v label s e).1 }

pub sql_expression_lem : (v : Json) (label : Text) → Ensures IsSafe (assert_sql_expression v label)
sql_expression_lem v label = record { at = λ s e. (assert_sql_expression-IsSafe v label s e).1 }

optional_type_lem :
    (label : Text) (v : Option Json) → Ensures (OnSome IsSafeType) (optional_type label v)
unfolding optional_type
optional_type_lem label none = Ensures-ok none tt
optional_type_lem label (some v) =
    Ensures-bind _ _ (sql_type_lem v label) λ s safe. Ensures-ok (some s) safe

pub optional_expression_lem :
    (label : Text) (v : Option Json) → Ensures (OnSome IsSafe) (optional_expression label v)
unfolding optional_expression
optional_expression_lem label none = Ensures-ok none tt
optional_expression_lem label (some v) =
    Ensures-bind _ _ (sql_expression_lem v label) λ s safe. Ensures-ok (some s) safe

abbrev IsDialectDefault : Text × Text → Type 0
IsDialectDefault d = IsIn d.0 dialects × IsSafe d.1

dialect_default_lem :
    (label : Text) (entry : Text × Json) → Ensures IsDialectDefault (dialect_default label entry)
unfolding dialect_default
dialect_default_lem label (dialect, expression) = Ensures-require _ _ _ λ known.
    Ensures-bind _ _ (sql_expression_lem expression _)
      λ s safe. Ensures-ok _ (is_one_of→IsIn dialect dialects known, safe)

dialect_defaults_lem :
    (label : Text) (v : Option Json) → Ensures (All IsDialectDefault) (dialect_defaults label v)
unfolding dialect_defaults
dialect_defaults_lem label none = Ensures-ok [] tt
dialect_defaults_lem label (some (obj ms)) =
    Ensures-traverse (dialect_default label) (dialect_default_lem label) (entries ms)
dialect_defaults_lem label (some null) = Ensures-err _
dialect_defaults_lem label (some (bool _)) = Ensures-err _
dialect_defaults_lem label (some (num _)) = Ensures-err _
dialect_defaults_lem label (some (str _)) = Ensures-err _
dialect_defaults_lem label (some (arr _)) = Ensures-err _

record DbIsSafe (db : FieldDb) : Type 0 where
  postgres_type : OnSome IsSafeType db.postgres_type
  sqlite_type : OnSome IsSafeType db.sqlite_type
  initial : OnSome IsSafe db.initial
  initial_by_dialect : All IsDialectDefault db.initial_by_dialect

normalize_db_lem :
    (defs : Members) (label : Text) (db : Option Json)
    → Ensures DbIsSafe (normalize_db defs label db)
unfolding normalize_db
normalize_db_lem defs label db = Ensures-bind _ _ (optional_type_lem _ _) λ postgres hp.
    Ensures-bind _ _ (optional_type_lem _ _) λ sqlite hs.
      Ensures-bind _ _ (optional_expression_lem _ _) λ initial hi.
        Ensures-bind _ _ (dialect_defaults_lem _ _) λ by_dialect hd.
          Ensures-step (optional_reference defs label _) _ λ references _.
            Ensures-ok _ (record {
              postgres_type = hp;
              sqlite_type = hs;
              initial = hi;
              initial_by_dialect = hd;
            })

abbrev IsLimit : ℕ → Type 0
IsLimit n = (0 < n) × (n ≤ max_safe)

length_limit_lem :
    (label : Text) (v : Option Json) → Ensures (OnSome IsLimit) (length_limit label v)
unfolding length_limit
length_limit_lem label none = Ensures-ok none tt
length_limit_lem label (some (num (plus n))) =
    Ensures-require (leb n max_safe && not (n == 0)) _ _
      λ bounded. Ensures-ok (some n) (ground arith)
length_limit_lem label (some (num (minus _))) = Ensures-err _
length_limit_lem label (some (num (double _))) = Ensures-err _
length_limit_lem label (some null) = Ensures-err _
length_limit_lem label (some (bool _)) = Ensures-err _
length_limit_lem label (some (str _)) = Ensures-err _
length_limit_lem label (some (arr _)) = Ensures-err _
length_limit_lem label (some (obj _)) = Ensures-err _

pub normalize_field_lem :
    (defs : Members) (entity : Text) (required : List Text) (property : Text × Json)
    → Ensures FieldIsSafe (normalize_field defs entity required property)
unfolding normalize_field
normalize_field_lem defs entity required (name, property) = Ensures-step (read _ property) _ λ db _.
    Ensures-step (text_or _ _) _ λ column _.
      Ensures-then (assert_identifier column _) _ λ identifier.
        Ensures-step (property_kind property) _ λ kind _.
          Ensures-bind _ _ (length_limit_lem _ _) λ max_length hm.
            Ensures-bind _ _ (normalize_db_lem defs _ db) λ db' hd.
              Ensures-step (enum_values _) _ λ choices _. Ensures-ok _ (record {
                column = assert_identifier-IsIdentifier column _ identifier;
                max_length = hm;
                postgres_type = hd.postgres_type;
                sqlite_type = hd.sqlite_type;
                initial = hd.initial;
                initial_by_dialect = hd.initial_by_dialect;
              })
