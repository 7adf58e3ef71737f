-- ===== src/Schema/WellFormed/Entities.antt =====
-- The part of `normalizeSchema` that reads a definition with a table, with what its results satisfy.
use mathlib.Core.List.{cons-ne-nil}
use cliptown_lib_core.Prelude.{
  ℕ, suc, ◌≡◌, ◌≢◌, refl, true, false, not, ◌&&◌, List, [], ◌∷◌, Option, none, some, All, All-map,
  Option-cases, inl, inr, and-eq-true, not-eq-true, Result, ok, require-eq-ok, traverse, for_each,
  for_each-All, is_empty, is_some,
}
use cliptown_lib_core.Prelude.Outcomes.{
  Ensures, Ensures-ok, Ensures-err, Ensures-require, Ensures-then, Ensures-bind, Ensures-step,
  Ensures-traverse,
}
use cliptown_lib_core.Text.{Text, lit, is_one_of, is_blank}
use cliptown_lib_core.Text.Equality.{Distinct, not_one_of}
use cliptown_lib_core.Json.{
  Json, null, bool, num, str, arr, obj, Members, entries, items, read, text_or, as_text, is_text,
  truthy?, own, is_nullish,
}
use cliptown_lib_core.SqlGuard.{assert_identifier}
use cliptown_lib_core.SqlGuard.Safe.{IsSafe}
use cliptown_lib_core.Schema.{Field}
use cliptown_lib_core.Schema.Fields.Db.{named}
use cliptown_lib_core.Schema.Entities.{
  distinct, find_field, known_field, array_of, index_name, normalize_index, normalize_indexes,
  spell, check_name, check_expression, normalize_check, list_of, properties_of, required_of,
  primary_key_of,
}
use cliptown_lib_core.Schema.Normalize.{
  columns, index_names, check_names, complete_entity, normalize_entity,
}
use cliptown_lib_core.Schema.WellFormed.{
  IsIdentifier, FieldIsSafe, Known, IndexIsSafe, CheckIsSafe, EntityIsSafe,
}
use cliptown_lib_core.Schema.WellFormed.Fields.{
  assert_identifier-IsIdentifier, optional_expression_lem, sql_expression_lem, normalize_field_lem,
}

pub distinct-Distinct : (ss : List Text) → distinct ss ≡ true → Distinct ss
unfolding distinct
distinct-Distinct [] h = tt
distinct-Distinct (s ∷ ss) h =
    let (new, rest) = and-eq-true (not (is_one_of s ss)) (distinct ss) h in
    (not_one_of s ss (not-eq-true _ new), distinct-Distinct ss rest)

pub is_empty-ne-nil {ℓ} : {A : Type ℓ} (xs : List A) → not (is_empty xs) ≡ true → xs ≢ []
unfolding is_empty
is_empty-ne-nil [] h = cc
is_empty-ne-nil (x ∷ xs) h = cons-ne-nil x xs

-- A loop over a non-empty list returns a non-empty list.
traverse-ne-nil {ℓ κ} :
    {A : Type ℓ} {B : Type κ} (f : A → Result B) (xs : List A)
    → xs ≢ []
    → Ensures (λ ys. ys ≢ []) (traverse f xs)
unfolding traverse
traverse-ne-nil f [] h = absurd (h refl)
traverse-ne-nil f (x ∷ xs) h =
    Ensures-step (f x) _
      λ y _. Ensures-step (traverse f xs) _ λ ys _. Ensures-ok _ (cons-ne-nil y ys)

known_field-Known :
    (fields : List Field) (message key : Text)
    → known_field fields message key ≡ ok tt
    → Known fields key
unfolding known_field
known_field-Known fields message key h = elim (Option-cases (find_field fields key)) [
  | inl e ↦
      let absent : is_some (find_field fields key) ≡ false = rw e in
      cc (require-eq-ok (is_some (find_field fields key)) _ h)
  | inr found ↦ found
]

array_of_lem : (message : Text) (v : Option Json) → Ensures (λ vs. vs ≢ []) (array_of message v)
unfolding array_of
array_of_lem message (some (arr vs)) =
    Ensures-require (not (is_empty (items vs))) _ _ λ h. Ensures-ok _ (is_empty-ne-nil (items vs) h)
array_of_lem message none = Ensures-err _
array_of_lem message (some null) = Ensures-err _
array_of_lem message (some (bool _)) = Ensures-err _
array_of_lem message (some (num _)) = Ensures-err _
array_of_lem message (some (str _)) = Ensures-err _
array_of_lem message (some (obj _)) = Ensures-err _

normalize_index_lem :
    (entity table : Text) (fields : List Field) (position : ℕ) (index : Json)
    → Ensures (IndexIsSafe fields) (normalize_index entity table fields position index)
unfolding normalize_index
normalize_index_lem entity table fields position index = Ensures-step (read _ index) _ λ given _.
    Ensures-bind _ _ (array_of_lem _ given) λ raw some_raw.
      Ensures-bind _ _ (traverse-ne-nil as_text raw some_raw) λ keys some_keys.
        Ensures-then (for_each (known_field fields _) keys) _ λ known.
          Ensures-step (index_name table fields keys _ _) _ λ name _.
            Ensures-then (assert_identifier name _) _ λ identifier.
              Ensures-bind _ _ (optional_expression_lem _ _) λ condition safe.
                Ensures-ok _ (record {
                  some_fields = some_keys;
                  known = All-map (known_field-Known fields _) keys (for_each-All _ keys known);
                  name = assert_identifier-IsIdentifier name _ identifier;
                  condition = safe;
                })

normalize_indexes_lem :
    (entity table : Text) (fields : List Field) (position : ℕ) (raw : List Json)
    → Ensures (All (IndexIsSafe fields)) (normalize_indexes entity table fields position raw)
unfolding normalize_indexes
normalize_indexes_lem entity table fields position [] = Ensures-ok [] tt
normalize_indexes_lem entity table fields position (index ∷ raw) =
    Ensures-bind _ _ (normalize_index_lem entity table fields position index) λ i hi.
      Ensures-bind _ _ (normalize_indexes_lem entity table fields (suc position) raw)
        λ is his. Ensures-ok (i ∷ is) (hi, his)

check_expression_lem : (label : Text) (v : Option Json) → Ensures IsSafe (check_expression label v)
unfolding check_expression
check_expression_lem label (some (str s)) =
    Ensures-require (not (is_blank s)) _ _ λ _. sql_expression_lem (str s) _
check_expression_lem label none = Ensures-err _
check_expression_lem label (some null) = Ensures-err _
check_expression_lem label (some (bool _)) = Ensures-err _
check_expression_lem label (some (num _)) = Ensures-err _
check_expression_lem label (some (arr _)) = Ensures-err _
check_expression_lem label (some (obj _)) = Ensures-err _

normalize_check_lem :
    (entity : Text) (check : Json) → Ensures CheckIsSafe (normalize_check entity check)
unfolding normalize_check
normalize_check_lem entity check = Ensures-step (read _ check) _ λ given _.
    Ensures-step (check_name given) _ λ name _.
      Ensures-then (assert_identifier (spell name) _) _ λ identifier.
        Ensures-bind _ _ (check_expression_lem _ _) λ expression safe. Ensures-ok _ (record {
          name = assert_identifier-IsIdentifier (spell name) _ identifier;
          expression = safe;
        })

primary_key_of_lem :
    (name : Text) (properties : Members) (raw : Option Json)
    → Ensures (λ key. key ≢ []) (primary_key_of name properties raw)
unfolding primary_key_of
primary_key_of_lem name properties (some (arr vs)) =
    Ensures-step (traverse as_text (items vs)) _ λ keys _.
      Ensures-require (not (is_empty keys)) _ _ λ h. Ensures-ok keys (is_empty-ne-nil keys h)
primary_key_of_lem name properties raw =
    Ensures-require (is_nullish raw && truthy? (own (lit "id") properties)) _ _
      λ _. Ensures-ok _ (cons-ne-nil _ _)

-- What `complete_entity` is given: a table and a key that were tested, and the fields.
record Parts (table : Text) (key : List Text) (fields : List Field) : Type 0 where
  table_identifier : IsIdentifier table
  some_key : key ≢ []
  distinct_key : Distinct key
  safe_fields : All FieldIsSafe fields

complete_entity_lem :
    (name : Text) (definition : Json) (db : Option Json) (table : Text) (key : List Text)
    (fields : List Field)
    → Parts table key fields
    → Ensures EntityIsSafe (complete_entity name definition db table key fields)
unfolding complete_entity
complete_entity_lem name definition db table key fields parts =
    Ensures-require (distinct (columns fields)) _ _ λ distinct_columns.
      Ensures-then (for_each (known_field fields _) key) _ λ known_key.
        Ensures-step (list_of _) _ λ raw_indexes _.
          Ensures-bind _ _ (normalize_indexes_lem name table fields 0 raw_indexes)
            λ indexes safe_indexes. Ensures-require (distinct (index_names indexes)) _ _ λ _.
              Ensures-step (list_of _) _ λ raw_checks _.
                Ensures-bind _ _ (Ensures-traverse _ (normalize_check_lem name) raw_checks)
                  λ checks safe_checks.
                    Ensures-require (distinct (check_names checks)) _ _ λ distinct_checks.
                      Ensures-step (text_or name _) _ λ interface_type _.
                        Ensures-step (text_or [] _) _ λ description _. Ensures-ok _ (record {
                          table = parts.table_identifier;
                          fields = parts.safe_fields;
                          columns = distinct-Distinct (columns fields) distinct_columns;
                          some_key = parts.some_key;
                          distinct_key = parts.distinct_key;
                          known_key =
                              All-map (known_field-Known fields _) key
                                (for_each-All _ key known_key);
                          indexes = safe_indexes;
                          checks = safe_checks;
                          check_names = distinct-Distinct (check_names checks) distinct_checks;
                        })

-- Each definition with a table becomes a well-formed entity, or is refused.
pub normalize_entity_lem :
    (defs : Members) (name : Text) (definition : Json) (db : Option Json)
    → Ensures EntityIsSafe (normalize_entity defs name definition db)
unfolding normalize_entity
normalize_entity_lem defs name definition db = Ensures-require (is_text _ _) _ _ λ _.
    Ensures-step (named _) _ λ table _. Ensures-then (assert_identifier table _) _ λ identifier.
      Ensures-step (properties_of _) _ λ properties _. Ensures-step (required_of _) _ λ required _.
        Ensures-then (for_each _ required) _ λ _.
          Ensures-bind _ _ (primary_key_of_lem name properties _) λ key some_key.
            Ensures-require (distinct key) _ _ λ distinct_key.
              Ensures-bind _ _
                (Ensures-traverse _ (normalize_field_lem defs name required) (entries properties))
                λ fields safe_fields.
                  complete_entity_lem name definition db table key fields (record {
                    table_identifier = assert_identifier-IsIdentifier table _ identifier;
                    some_key = some_key;
                    distinct_key = distinct-Distinct key distinct_key;
                    safe_fields = safe_fields;
                  })
