-- ===== src/Examples.antt =====
-- The theorems at concrete inputs: a small persistence schema and its entities, SQL fragments, and
-- files.
mod Program
mod Templates
mod Linting
mod Desired
mod Documents
mod Generator
use Program.{program}
use Generator.{setup}
use mathlib.Core.List.{Perm}
use cliptown_lib_core.Embeddings.Outputs.{Run, generate}
use cliptown_lib_core.Embeddings.Removed.{under_generated, generate-write_generated}
use cliptown_lib_core.Prelude.{
  ℕ, ◌≡◌, refl, ◌≢◌, Bool, true, false, List, [], ◌∷◌, ◌++◌, map, Option, none, some, leb, Result,
  ok, err, All, arith, length, ltb,
}
use cliptown_lib_core.Text.{Text, lit, text_eq, is_one_of}
use cliptown_lib_core.Text.Equality.{IsIn, Distinct}
use cliptown_lib_core.Json.{Json, null, bool, num, str, arr, obj, plus, member, end}
use cliptown_lib_core.Json.Canonical.{text_less}
use cliptown_lib_core.SqlGuard.{assert_sql_expression, assert_sql_type}
use cliptown_lib_core.SqlGuard.Safe.{IsSafe, assert_sql_expression-IsSafe}
use cliptown_lib_core.SqlGuard.Types.{IsSafeType, assert_sql_type-IsSafeType}
use cliptown_lib_core.Schema.{Property, Reference, FieldDb, Field, Index, Check, Entity, Model}
use cliptown_lib_core.Schema.Normalize.{names}
use cliptown_lib_core.Topology.{rounds, topological_entities}
use cliptown_lib_core.Topology.Rounds.{rounds_total}
use cliptown_lib_core.Topology.Permutation.{topological_entities-perm}
use cliptown_lib_core.Names.{snake_case}
use cliptown_lib_core.Names.Snake.{IsSqueezed, snake_case-IsSqueezed}
use cliptown_lib_core.Text.{is_upper}
use cliptown_lib_core.Prelude.{type_error, is_ok}
use cliptown_lib_core.Sql.{postgres, sql_column, column_type, find_entity}
use cliptown_lib_core.Lint.{Message, LintResult, collect, empty_report}
use cliptown_lib_core.Lint.Counts.{IsReportOf, collect-IsReportOf}
use cliptown_lib_core.Prelude.{require, for_each}
use cliptown_lib_core.Text.{join, includes, to_lower}
use cliptown_lib_core.Json.{text_array}
use cliptown_lib_core.Contracts.{follow, has_text, is_number, search, literal}
use cliptown_lib_core.Contracts.ModelSpace.{
  is_false, same_json, check_registry, check_token, postgres_tokens, hybrid_tokens,
  cockroach_tokens, ann_index, check_type_spec_and_product, verify_model_space,
}
use cliptown_lib_core.Topology.Order.{IsOrdered}
use cliptown_lib_core.Topology.Acyclic.{topological_entities-IsOrdered}
use cliptown_lib_core.Sql.{sql_literal, lookup}
use cliptown_lib_core.Sql.Literal.{read_literal, read_literal-sql_literal}
use cliptown_lib_core.SqlGuard.Grammar.{NotQuoteAhead}
use cliptown_lib_core.Codegen.Files.{
  FileList, paths, kept, policy_readme, check_generated, write_generated,
}
use cliptown_lib_core.Codegen.Checked.{
  write_generated-keeps_readme, IsOutput, are_stored, are_stored-AreStored,
}
use cliptown_lib_core.Schema.Normalize.{normalize_schema}
use cliptown_lib_core.Topology.Order.{IsRanked}
use cliptown_lib_core.Schema.WellFormed.Entities.{distinct-Distinct}
use cliptown_lib_core.Prelude.{if◌then◌else◌, ◌==◌}
use cliptown_lib_core.Sql.{postgres_kind_type}
use cliptown_lib_core.Targets.Rust.{rust_scalar}
use cliptown_lib_core.Targets.Drizzle.{drizzle_type}
use cliptown_lib_core.Targets.Prisma.{prisma_type}
use cliptown_lib_core.Targets.TypeOrm.{typeorm_type}
use cliptown_lib_core.Targets.Gorm.{go_scalar}
use cliptown_lib_core.Targets.Drift.{dart_scalar}
use cliptown_lib_core.Targets.Ent.{ent_type}
use cliptown_lib_core.Targets.Stormberry.{stormberry_type}
use cliptown_lib_core.Codegen.{Platform, Args, generate_files, run, main}
use cliptown_lib_core.Codegen.Storage.{
  stored, stored_from, are_plain, is_plain_segment, segments, segments_from, lies_below,
}
use cliptown_lib_core.Codegen.Outputs.{check_generated-generate_files}

-- What a computation returned, or another value.
abbrev returned {ℓ} : {A : Type ℓ} → A → Result A → A
returned other (ok a) = a
returned other (err e) = other

returned-eq {ℓ} :
    {A : Type ℓ} (other : A) (m : Result A) → is_ok m ≡ true → m ≡ ok (returned other m)
returned-eq other (ok a) h = refl
returned-eq other (err e) h = cc

abbrev id_property : Json
id_property =
    obj (member (lit "type") (str (lit "string")) (member (lit "format") (str (lit "uuid")) end))

-- A schema with one table.
abbrev sample : Json
sample = obj (
    member (lit "$schema") (str (lit "https://json-schema.org/draft/2020-12/schema")) (
      member (lit "x-lib-core")
        (obj (
          member (lit "product") (str (lit "clip"))
            (member (lit "interfaces") (obj (member (lit "repository") (str (lit "r")) end)) end)))
        (member (lit "$defs")
          (obj (
            member (lit "Clip")
              (obj (
                member (lit "type") (str (lit "object")) (
                  member (lit "x-db") (obj (member (lit "table") (str (lit "clips")) end))
                    (member (lit "properties") (obj (member (lit "id") id_property end)) end))))
              end))
          end)))

sample_platform : Platform
sample_platform = record {
  sha256 = λ s. lit "0";
  before = λ a b. leb (length a) (length b);
  gofmt = λ s. ok s;
  read_file = λ s. ok [];
  parse_file = λ s. ok sample;
  resolve = λ s. s;
}

abbrev no_model : Model
no_model = record { schema = null; product = []; interfaces = none; entities = [] }

abbrev sample_model : Model
sample_model = returned no_model (normalize_schema sample)

abbrev generated : Model × FileList
generated = returned (no_model, []) (generate_files sample_platform sample)

generated-is_ok : is_ok (generate_files sample_platform sample) ≡ true
unfolding program sample_platform
generated-is_ok = refl

generated-eq : generate_files sample_platform sample ≡ ok generated
generated-eq = returned-eq (no_model, []) (generate_files sample_platform sample) generated-is_ok

generated-are_stored : are_stored generated.1 ≡ true
unfolding program sample_platform are_stored stored stored_from
generated-are_stored = refl

check_generated-generate_files_example :
    check_generated generated.1 (write_generated generated.1 []) ≡ ok tt
check_generated-generate_files_example =
    check_generated-generate_files sample_platform sample generated.0 generated.1 [] generated-eq
      (are_stored-AreStored generated.1 generated-are_stored)

generate-write_generated_example :
    (run : Run) × (generate true setup ([] ++ under_generated (write_generated generated.1 []))
      ≡ ok run)
    × (run.exit_code ≢ 0)
generate-write_generated_example =
    generate-write_generated sample_platform sample generated.0 generated.1 [] [] setup generated-eq
      tt

two_files : FileList
two_files = (lit "b", lit "2") ∷ (lit "a", lit "1") ∷ []

old_files : FileList
old_files = (lit "README.md", lit "policy") ∷ (lit "old", []) ∷ []

two_files-IsOutput : IsOutput two_files
unfolding program two_files are_plain is_plain_segment segments segments_from lies_below
two_files-IsOutput = (distinct-Distinct (paths two_files) refl, (refl, (refl, tt)), refl)

old_readme : lookup policy_readme old_files ≡ some (lit "policy")
unfolding program old_files
old_readme = refl

write_generated-keeps_readme_example :
    write_generated two_files old_files
    ≡ kept two_files ++ (policy_readme, stored (lit "policy")) ∷ []
write_generated-keeps_readme_example =
    write_generated-keeps_readme two_files old_files (lit "policy") two_files-IsOutput old_readme

abbrev arguments : List Text
arguments = lit "--schema" ∷ lit "clip.json" ∷ []

abbrev sample_main : FileList × Text
sample_main =
    returned ([], [])
      (main sample_platform (lit "schema.json") (lit "generated") arguments old_files)

abbrev write_args : Args
write_args = record {
  schema = some (lit "clip.json");
  out = some (lit "generated");
  check = false;
  help = false;
}

abbrev sample_run : FileList × Text
sample_run = returned ([], []) (run sample_platform (lit "generated") write_args old_files)

check_text-accepted :
    assert_sql_expression (str (lit "length(name) > 2 and name <> 'set it''s'")) (lit "c")
    ≡ ok (lit "length(name) > 2 and name <> 'set it''s'")
unfolding program
check_text-accepted = refl

assert_sql_expression-IsSafe_example :
    (str (lit "length(name) > 2 and name <> 'set it''s'")
      ≡ str (lit "length(name) > 2 and name <> 'set it''s'"))
    × IsSafe (lit "length(name) > 2 and name <> 'set it''s'")
assert_sql_expression-IsSafe_example =
    assert_sql_expression-IsSafe (str (lit "length(name) > 2 and name <> 'set it''s'")) (lit "c")
      (lit "length(name) > 2 and name <> 'set it''s'") check_text-accepted

type-accepted :
    assert_sql_type (str (lit "numeric(10, 2)[]")) (lit "t") ≡ ok (lit "numeric(10, 2)[]")
unfolding program
type-accepted = refl

assert_sql_type-IsSafeType_example :
    (str (lit "numeric(10, 2)[]") ≡ str (lit "numeric(10, 2)[]"))
    × IsSafeType (lit "numeric(10, 2)[]")
assert_sql_type-IsSafeType_example =
    assert_sql_type-IsSafeType (str (lit "numeric(10, 2)[]")) (lit "t") (lit "numeric(10, 2)[]")
      type-accepted

comma_ahead : NotQuoteAhead (lit ", 1")
unfolding lit
comma_ahead = λ same. omega (arith, same)

read_literal-sql_literal_example :
    read_literal (sql_literal (str (lit "it's")) ++ lit ", 1") ≡ some (lit "it's", lit ", 1")
read_literal-sql_literal_example = read_literal-sql_literal (lit "it's") (lit ", 1") comma_ahead

-- A field of a name and kind, with the entity that it references.
plain_field : Text → Option Reference → Field
plain_field name references = record {
  name = name;
  column = name;
  property = record { format = none; max_length = none; initial = none; choices = [] };
  db = record {
    postgres_type = none;
    sqlite_type = none;
    initial = none;
    initial_by_dialect = [];
    unique = false;
    references = references;
  };
  kind = lit "string";
  required = true;
  nullable = false;
}

entity_named : Text → List Field → Entity
entity_named name fields = record {
  name = name;
  module_name = name;
  class_name = name;
  interface_type = name;
  table = name;
  description = [];
  fields = fields;
  primary_key = lit "id" ∷ [];
  indexes = [];
  checks = [];
}

reference_to : Text → Reference
reference_to name = record { entity = name; target = lit "id"; on_delete = none; on_update = none }

-- The first entity references the second.
two_entities : List Entity
two_entities =
    entity_named (lit "Clip") (plain_field (lit "owner") (some (reference_to (lit "User"))) ∷ [])
    ∷ entity_named (lit "User") (plain_field (lit "id") none ∷ [])
    ∷ []

abbrev shorter : Text → Text → Bool
shorter a b = leb (length a) (length b)

abbrev rank_of : Text → ℕ
rank_of [] = 0
rank_of (c ∷ s) = if c == b'C' then 1 else 0

two_entities-IsRanked : All (IsRanked rank_of (names two_entities)) two_entities
unfolding program two_entities entity_named plain_field reference_to
two_entities-IsRanked = ((λ _. omega arith, tt), ((tt, tt), tt))

topological_entities-IsOrdered_example :
    IsOrdered (names two_entities) [] (topological_entities shorter two_entities)
topological_entities-IsOrdered_example =
    topological_entities-IsOrdered shorter rank_of two_entities two_entities-IsRanked

two_entities-distinct : Distinct (names two_entities)
unfolding program two_entities entity_named
two_entities-distinct = distinct-Distinct (names two_entities) refl

topological_entities-perm_example : Perm (topological_entities shorter two_entities) two_entities
topological_entities-perm_example =
    topological_entities-perm shorter two_entities two_entities-distinct

rounds_total_example :
    (order : List Entity) × (rounds shorter two_entities (length two_entities) [] two_entities
      ≡ some order)
rounds_total_example = rounds_total shorter two_entities

snake_case-IsSqueezed_example :
    All (λ c. is_upper c ≡ false) (snake_case (lit "ownerId__x"))
    × IsSqueezed (snake_case (lit "ownerId__x"))
snake_case-IsSqueezed_example = snake_case-IsSqueezed (lit "ownerId__x")

lint_message : Text → Message
lint_message rule = record {
  rule = some rule;
  severity = 2;
  line = some 1;
  column = some 1;
  message = lit "found";
}

lint_results : List LintResult
lint_results =
    record {
      file_path = lit "a.js";
      messages = lint_message (lit "semi") ∷ lint_message (lit "semi") ∷ [];
    }
    ∷ []

collect-IsReportOf_example :
    IsReportOf 1 lint_results (collect (λ n. ltb n 1) [] lint_results empty_report)
collect-IsReportOf_example = collect-IsReportOf 1 [] lint_results
