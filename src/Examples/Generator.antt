-- ===== src/Examples/Generator.antt =====
-- The theorems on the generator of embeddings at concrete inputs.
use cliptown_lib_core.Prelude.{
  ◌≡◌, refl, ◌↔◌, true, false, List, [], ◌∷◌, map, none, all, any, Result, ok, err, is_ok,
}
use cliptown_lib_core.Text.{
  Text, lit, join, digits, digits_from, is_blank, replace_all, is_one_of, text_eq,
}
use cliptown_lib_core.Json.{plus, double}
use cliptown_lib_core.Json.Stringify.{bool_text, number_text}
use cliptown_lib_core.Json.Canonical.{insertion_sort, insert, text_less}
use mathlib.Core.List.{flat_map}
use cliptown_lib_core.Codegen.Files.{FileList}
use cliptown_lib_core.Embeddings.{
  EmbeddingModel, Contract, Manifest, Setup, new_texts, banner, w, providers, qualified, tol,
}
use cliptown_lib_core.Embeddings.Spelling.{
  wrap_lines, indent_rest, spaces, wrap_list, quoted, sql_list, unlines, difference, gap, ending,
}
use cliptown_lib_core.Embeddings.Postgres.{first_lines, body_lines}
use cliptown_lib_core.Text.Cut.{cut, cut_at, after_word}
use cliptown_lib_core.Embeddings.Postgres.Registry.{
  postgres_opening, model_registry, registry_rows, model_seed, seed_row, sql_text, doubled_quotes,
}
use cliptown_lib_core.Embeddings.Postgres.Functions.{width_functions, check_functions}
use cliptown_lib_core.Embeddings.Postgres.Table.{
  table_opening, vector_columns, text_columns, table_constraints, extra_cols_sql,
}
use cliptown_lib_core.Embeddings.Postgres.Indexes.{candidate_indexes, lookup_indexes, touch_trigger}
use cliptown_lib_core.Codegen.Files.{paths}
use cliptown_lib_core.Codegen.Storage.{are_plain, resolve_path}
use cliptown_lib_core.Codegen.Checked.{are_stored, are_stored-AreStored}
use cliptown_lib_core.Examples.Program.{program}
use cliptown_lib_core.Examples.Templates.{templates}
use cliptown_lib_core.Embeddings.Outputs.{Run, setup_outputs, generate}
use cliptown_lib_core.Embeddings.Split.{setup_outputs_total}
use cliptown_lib_core.Embeddings.Runs.{Holds, ArePlaced, generate-check, generate-generate}
use cliptown_lib_core.Embeddings.Drift.{HasOneMark, IsParted, pg_parts-postgres}
use cliptown_lib_core.Embeddings.Wrapping.{join-wrap_lines-sql_list}

abbrev pub small_model : EmbeddingModel
small_model = record {
  key = lit "openai:text-embedding-3-small:1";
  provider = lit "openai";
  model_name = lit "text-embedding-3-small";
  model_version = lit "1";
  native_dims = 1536;
  mrl = true;
  normalized_by_provider = true;
  family = lit "openai";
  notes = lit "The default.";
}

abbrev pub contract : Contract
contract = record {
  contract = lit "ores-embedding-contract";
  contract_version = lit "2026.08.29";
  canonical_dimensions = 4100;
  norm_tolerance = double (lit "0.001");
  fusion_k = plus 60;
  default_candidate_count = plus 400;
  default_result_count = plus 20;
  pgvector = lit ">=0.7.0";
  postgres = lit ">=16";
  cockroachdb = lit ">=25.2";
  models = small_model ∷ [];
}

abbrev pub manifest : Manifest
manifest = record {
  github_org = lit "cliptown";
  pg_schema = lit "cliptown";
  table = lit "clip_embeddings";
  tenant_column = lit "account_id";
  prefix = lit "cliptown";
  purpose = lit "Semantic recall over clipboard history.";
  entity_kinds = lit "clip" ∷ lit "clip_group" ∷ [];
  extra_columns = [];
  existing_table = false;
  existing_dims = none;
  dedupe_is_primary = false;
}

abbrev pub setup : Setup
setup = record {
  contract = contract;
  manifest = manifest;
  contract_sha = lit "0";
  manifest_sha = lit "1";
}

abbrev repository : FileList
repository = (lit "README.md", lit "cliptown") ∷ []

setup_outputs_total_example : (files : FileList) × (setup_outputs setup ≡ ok files)
setup_outputs_total_example = setup_outputs_total setup

-- The outputs, or nothing.
abbrev outputs_of : Result FileList → FileList
outputs_of (ok files) = files
outputs_of (err e) = []

outputs_of-eq : (m : Result FileList) → is_ok m ≡ true → m ≡ ok (outputs_of m)
outputs_of-eq (ok files) h = refl
outputs_of-eq (err e) h = cc

abbrev setup_files : FileList
setup_files = outputs_of (setup_outputs setup)

setup_outputs-is_ok : is_ok (setup_outputs setup) ≡ true
unfolding program templates
setup_outputs-is_ok = refl

setup_files-eq : setup_outputs setup ≡ ok setup_files
setup_files-eq = outputs_of-eq (setup_outputs setup) setup_outputs-is_ok

generate-check_example :
    (run : Run) × (generate true setup repository ≡ ok run)
    × (run.files ≡ repository)
    × ((run.exit_code ≡ 0) ↔ Holds setup_files repository)
generate-check_example = generate-check setup repository setup_files setup_files-eq

setup_files-plain : are_plain (paths setup_files) ≡ true
unfolding program templates
setup_files-plain = refl

setup_files-resolved : all (λ (f : Text × Text). text_eq (resolve_path f.0) f.0) setup_files ≡ true
unfolding program templates
setup_files-resolved = refl

setup_files-stored : are_stored setup_files ≡ true
unfolding program templates
setup_files-stored = refl

setup_files-ArePlaced : ArePlaced setup_files
setup_files-ArePlaced =
    (setup_files-resolved, setup_files-plain, are_stored-AreStored setup_files setup_files-stored)

generate-generate_example :
    (written : Run) × (checked : Run) × (generate false setup repository ≡ ok written)
    × (written.exit_code ≡ 0)
    × (generate true setup written.files ≡ ok checked)
    × (checked.exit_code ≡ 0)
    × (checked.files ≡ written.files)
generate-generate_example =
    generate-generate setup repository setup_files setup_files-eq setup_files-ArePlaced

abbrev some_kinds : List Text
some_kinds = lit "clip" ∷ lit "clip_group" ∷ lit "source_app_context" ∷ []

join-wrap_lines-sql_list_example :
    join (lit ", ") (wrap_lines 44 70 [] (map quoted some_kinds)) ≡ sql_list some_kinds
join-wrap_lines-sql_list_example = join-wrap_lines-sql_list 44 70 some_kinds

setup-HasOneMark : HasOneMark setup
unfolding first_lines body_lines unlines lit cut postgres_opening model_registry registry_rows
    width_functions check_functions table_opening vector_columns text_columns table_constraints
    candidate_indexes lookup_indexes touch_trigger banner w wrap_list providers qualified model_seed
    seed_row sql_text doubled_quotes join digits tol gap ending extra_cols_sql bool_text wrap_lines
    indent_rest quoted is_blank new_texts insertion_sort insert text_less spaces digits_from
    replace_all number_text after_word cut_at is_one_of difference any flat_map text_eq
setup-HasOneMark = (refl, refl)

pg_parts-postgres_example : (head : Text) × (a : Text) × (b : Text) × IsParted setup head a b
pg_parts-postgres_example = pg_parts-postgres setup setup-HasOneMark
