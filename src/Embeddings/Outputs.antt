-- ===== src/Embeddings/Outputs.antt =====
-- scripts/embeddings/generate.mjs: the files that it emits, and its run with and without `--check`
-- over the repository's files. Each file stands under its path from the root of the repository, with
-- the text that is read back from it; the path of an output is resolved first. A path that leaves the
-- repository keeps its `..`, and every write succeeds.
use cliptown_lib_core.Prelude.{
  ℕ, Bool, true, not, List, [], ◌∷◌, ◌++◌, map, Option, none, some, if◌then◌else◌, length, Result,
  ok, ◌>>=◌,
}
use cliptown_lib_core.Text.{Text, lit, text_eq, concat, digits}
use cliptown_lib_core.Sql.{lookup}
use cliptown_lib_core.Codegen.Files.{FileList, write_files}
use cliptown_lib_core.Codegen.Storage.{resolve_path}
use cliptown_lib_core.Embeddings.{Setup, p, tbl, qualified}
use cliptown_lib_core.Embeddings.Postgres.{postgres, pg_body, pg_parts}
use cliptown_lib_core.Embeddings.Cockroach.{cockroach}
use cliptown_lib_core.Embeddings.Migration.{migration, migration_version}
use cliptown_lib_core.Embeddings.Queries.Hybrid.{hybrid_search}
use cliptown_lib_core.Embeddings.Queries.Matches.{correlate, alert_match}
use cliptown_lib_core.Embeddings.Queries.Dedupe.{dedupe}
use cliptown_lib_core.Embeddings.TypeSpec.{typespec}
use cliptown_lib_core.Embeddings.JsonSchema.{schema_text}
use cliptown_lib_core.Embeddings.Rust.Prepare.{rust}
use cliptown_lib_core.Embeddings.TypeScript.{ts}
use cliptown_lib_core.Embeddings.Dart.{dart}
use cliptown_lib_core.Embeddings.Docs.{docs}
use cliptown_lib_core.Embeddings.ContractTest.{contract_test}

-- The entries of `outputs`, with the two parts of the schema.
unfoldable pub outputs_with : Setup → Text × Text → FileList
unfolding lit
outputs_with s parts =
    (lit "db/schema/postgres/0100_" ++ p s ++ lit "_embeddings.sql", postgres s)
    ∷ (lit "db/schema/cockroach/0100_" ++ p s ++ lit "_embeddings.sql", cockroach s)
    ∷ (
      lit "db/migrations/" ++ migration_version ++ lit "__" ++ p s ++ lit "_embeddings_v2.sql",
      migration parts.0 parts.1 s,
    )
    ∷ (lit "db/queries/hybrid_search.sql", hybrid_search s)
    ∷ (lit "db/queries/dedupe_candidates.sql", dedupe s)
    ∷ (lit "db/queries/correlate_entities.sql", correlate s)
    ∷ (lit "db/queries/alert_match.sql", alert_match s)
    ∷ (lit "generated/rust/sea-orm/" ++ tbl s ++ lit ".rs", rust s)
    ∷ (lit "generated/typescript/embeddings.ts", ts s)
    ∷ (lit "generated/dart/embeddings.dart", dart s)
    ∷ (lit "schema/embeddings.schema.json", schema_text s)
    ∷ (lit "typespec/embeddings.tsp", typespec s)
    ∷ (lit "docs/embeddings.md", docs s)
    ∷ (lit "tests/embeddings-contract.test.mjs", contract_test s)
    ∷ []

-- `outputs`.
unfoldable pub setup_outputs : Setup → Result FileList
unfolding outputs_with pg_parts pg_body
setup_outputs s = do parts ← pg_parts (pg_body s); ok (outputs_with s parts)

-- `actual !== content`; the file may be missing.
unfoldable pub differs : Text → Option Text → Bool
unfolding text_eq
differs content none = true
differs content (some actual) = not (text_eq actual content)

-- The paths that the loop calls stale.
unfoldable pub stale_paths : FileList → FileList → List Text
unfolding differs lookup resolve_path
stale_paths [] directory = []
stale_paths ((path, content) ∷ files) directory =
    let rest = stale_paths files directory in
    if differs content (lookup (resolve_path path) directory) then path ∷ rest else rest

-- What a run leaves: the files, the lines of the error output, the standard output, the exit code.
pub record Run : Type 0 where
  pub files : FileList
  pub complaints : List Text
  pub message : Text
  pub exit_code : ℕ

-- The count and message of the check.
unfoldable pub check_run : Setup → FileList → FileList → List Text → Run
unfolding concat digits lit
check_run s files directory [] = record {
  files = directory;
  complaints = [];
  message = concat (
      lit "embeddings contract "
      ∷ s.contract.contract_version
      ∷ lit ": "
      ∷ digits (length files)
      ∷ lit " generated files are current\n"
      ∷ []);
  exit_code = 0;
}
check_run s files directory (path ∷ paths) = record {
  files = directory;
  complaints =
      map (λ rel. lit "stale: " ++ rel ++ lit "\n") (path ∷ paths)
      ++ (lit "\n"
          ++ digits (length (path ∷ paths))
          ++ lit " generated file(s) differ. Run: node scripts/embeddings/generate.mjs\n")
        ∷ [];
  message = [];
  exit_code = 1;
}

-- The files under the paths to which `resolve(root, rel)` leads.
unfoldable pub resolved : FileList → FileList
unfolding resolve_path
resolved files = map (λ f. (resolve_path f.0, f.1)) files

unfoldable pub write_run : Setup → FileList → FileList → Run
unfolding write_files resolved concat digits lit
write_run s files directory = record {
  files = write_files (resolved files) directory;
  complaints = [];
  message = concat (
      lit "embeddings contract "
      ∷ s.contract.contract_version
      ∷ lit ": wrote "
      ∷ digits (length files)
      ∷ lit " files for "
      ∷ s.manifest.github_org
      ∷ lit " ("
      ∷ qualified s
      ∷ lit ")\n"
      ∷ []);
  exit_code = 0;
}

-- The script from `outputs` on; the flag is `CHECK`.
unfoldable pub generate : Bool → Setup → FileList → Result Run
unfolding setup_outputs check_run write_run stale_paths
generate check s directory = do
  files ← setup_outputs s
  ok (
      if check
      then check_run s files directory (stale_paths files directory)
      else write_run s files directory)
