-- ===== src/DesiredSql/Report.antt =====
-- scripts/verify-desired-sql-v3.mjs: the files, the report and the exit code.
use mathlib.Core.List.{flat_map}
use cliptown_lib_core.Prelude.{
  ℕ, Bool, not, ◌&&◌, List, [], ◌∷◌, ◌++◌, map, Option, none, some, if◌then◌else◌, length, is_empty,
  keep,
}
use cliptown_lib_core.Text.{Text, lit, digits, concat, to_lower, includes}
use cliptown_lib_core.Text.Replace.{ends_with}
use cliptown_lib_core.DesiredSql.{Call, Policy, check_unqualified_calls, check_bare_policies}

-- What a directory holds, in the order of `readdirSync`.
mutual
  pub data Entry : Type 0 where
    file : (name content : Text) → Entry
    directory : Text → Entries → Entry

  pub data Entries : Type 0 where
    no_entry : Entries
    entry : Entry → Entries → Entries

-- `join(dir, name)` for the name of an entry.
unfoldable pub join_path : Text → Text → Text
join_path dir name = dir ++ lit "/" ++ name

abbrev pub Files : Type 0
Files = List (Text × Text)

-- `findSql`, with the text of each file.
unfoldable mutual
  pub find_sql : Text → Entries → Files
  find_sql dir no_entry = []
  find_sql dir (entry e es) = find_entry dir e ++ find_sql dir es

  pub find_entry : Text → Entry → Files
  find_entry dir (directory name es) = find_sql (join_path dir name) es
  find_entry dir (file name content) =
      if ends_with name (lit ".sql") then (join_path dir name, content) ∷ [] else []

-- `ROOTS`.
abbrev pub roots : List Text
roots = lit "embedding-contract/sql" ∷ lit "sql" ∷ lit "db/schema" ∷ []

-- A directory that cannot be read holds nothing.
unfoldable pub find_root : (Text → Option Entries) → Text → Files
find_root read_directory root = elim (read_directory root) [
  | none ↦ []
  | some es ↦ find_sql root es
]

-- `/cockroach/i.test(f)`.
unfoldable pub is_cockroach : Text × Text → Bool
is_cockroach f = includes (to_lower f.0) (lit "cockroach")

-- The files that the loop checks.
unfoldable pub checked : Files → Files
checked files = keep (λ f. not (is_cockroach f)) files

unfoldable pub all_calls : Files → List Call
all_calls files = flat_map (λ f. check_unqualified_calls f.0 f.1) (checked files)

unfoldable pub all_policies : Files → List Policy
all_policies files = flat_map (λ f. check_bare_policies f.0 f.1) (checked files)

-- What the script prints to each stream, in order, and its exit code.
pub record Printed : Type 0 where
  pub output : List Text
  pub errors : List Text
  pub exit_code : ℕ

unfoldable pub call_line : Call → Text
call_line p = concat (
    lit "  "
    ∷ p.file
    ∷ lit ":"
    ∷ digits p.line
    ∷ lit "  "
    ∷ p.fn
    ∷ lit " calls "
    ∷ p.callee
    ∷ lit "() unqualified"
    ∷ [])

unfoldable pub call_lines : List Call → List Text
call_lines [] = []
call_lines (p ∷ ps) =
    (lit "\nUnqualified search_path-sensitive calls inside a SQL function body.\n"
      ++ lit "pg_restore loads data with search_path set to the empty string. A CHECK\n"
      ++ lit "that calls one of these functions will raise during the restore, every\n"
      ++ lit "COPY row will be rejected, and the table will restore EMPTY while\n"
      ++ lit "pg_restore exits 0. Schema-qualify them (public.vector_dims(...)), or add\n"
      ++ lit "SET search_path to the function - qualification is preferred, because a\n"
      ++ lit "SET clause makes the function non-inlinable and this one runs per row.\n")
    ∷ map call_line (p ∷ ps)

unfoldable pub policy_line : Policy → Text
policy_line p = concat (
    lit "  "
    ∷ p.file
    ∷ lit ":"
    ∷ digits p.line
    ∷ lit "  policy "
    ∷ p.policy
    ∷ lit " is not replay-guarded"
    ∷ [])

unfoldable pub policy_lines : List Policy → List Text
policy_lines [] = []
policy_lines (p ∷ ps) =
    (lit "\nUnguarded CREATE POLICY. PostgreSQL has no CREATE POLICY IF NOT EXISTS,\n"
      ++ lit "so re-applying the desired state aborts here. Wrap each policy:\n\n"
      ++ lit "  DO $policy$ BEGIN\n"
      ++ lit "    CREATE POLICY ... ;\n"
      ++ lit "  EXCEPTION WHEN duplicate_object THEN NULL; END $policy$;\n\n"
      ++ lit "DROP POLICY IF EXISTS then CREATE also works but leaves the table briefly\n"
      ++ lit "unprotected; the DO block never does.\n")
    ∷ map policy_line (p ∷ ps)

-- The last line of a report with problems.
unfoldable pub counts_line : List Call → List Policy → Text
counts_line unqualified bare = concat (
    lit "\nverify-desired-sql-v3: "
    ∷ digits (length unqualified)
    ∷ lit " unqualified call(s), "
    ∷ digits (length bare)
    ∷ lit " unguarded policy(ies)."
    ∷ [])

unfoldable pub report_problems : Files → List Call → List Policy → Printed
report_problems files unqualified bare =
    if is_empty unqualified && is_empty bare
    then record {
      output =
          concat (
            lit "verify-desired-sql-v3: "
            ∷ digits (length files)
            ∷ lit " SQL file(s) conform."
            ∷ [])
          ∷ [];
      errors = [];
      exit_code = 0;
    }
    else record {
      output = [];
      errors = call_lines unqualified ++ policy_lines bare ++ counts_line unqualified bare ∷ [];
      exit_code = 1;
    }

unfoldable pub report : Files → Printed
report files =
    if is_empty files
    then record {
      output =
          (lit "verify-desired-sql-v3: no desired-state SQL in this repository yet; "
            ++ lit "the lint is in place for when there is.")
          ∷ [];
      errors = [];
      exit_code = 0;
    }
    else report_problems files (all_calls files) (all_policies files)

-- The script.
unfoldable pub verify_desired_sql : (Text → Option Entries) → Printed
verify_desired_sql read_directory = report (flat_map (find_root read_directory) roots)
