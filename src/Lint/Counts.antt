-- ===== src/Lint/Counts.antt =====
-- .ores-lint/eslint/formatter.mjs: the counts of the report, against the messages of the results.
use cliptown_lib_core.Prelude.{
  ℕ, suc, ◌+◌, ◌≡◌, refl, Bool, not, List, [], ◌∷◌, ◌++◌, arith, length, All, Bool-cases, inl, inr,
  if◌then◌else◌, is_empty, ◌∙◌, ltb,
}
use cliptown_lib_core.Text.{Text, lit}
use cliptown_lib_core.Lint.{
  Message, LintResult, Report, add_message, add_messages, count_file, add_result, collect,
  empty_report, remove_first,
}
use cliptown_lib_core.Lint.Counting.{
  how_many, all_messages, is_error, has_messages, names_rule, names_none, count_of, part-collect,
  count_of-add_message, unparsed-add_message,
}
use cliptown_lib_core.Lint.Capped.{IsCapped, collect-IsCapped}

-- The report has the counts of the messages.
pub record IsReportOf (cap : ℕ) (results : List LintResult) (report : Report) : Type 0 where
  pub errors : report.errors ≡ how_many is_error (all_messages results)
  pub warnings : report.warnings ≡ how_many (λ m. not (is_error m)) (all_messages results)
  pub files : report.files ≡ how_many has_messages results
  pub of_rule :
      (rule : Text)
      → count_of rule report.rules ≡ how_many (λ m. names_rule rule m.rule) (all_messages results)
  pub unparsed :
      length report.parse_errors ≡ how_many (λ m. names_none m.rule) (all_messages results)
  pub capped : All (IsCapped cap) report.rules

count_file-step : (report : Report) → (count_file report).files ≡ suc report.files
unfolding count_file
count_file-step report = refl

add_messages-files :
    (below_max : ℕ → Bool) (rel : Text) (ms : List Message) (report : Report)
    → (add_messages below_max rel ms report).files ≡ report.files
unfolding add_messages add_message
add_messages-files below_max rel [] report = refl
add_messages-files below_max rel (m ∷ ms) report =
    add_messages-files below_max rel ms (add_message below_max rel m report)

files-collect :
    (below_max : ℕ → Bool) (cwd : Text) (rs : List LintResult) (report : Report)
    → (collect below_max cwd rs report).files ≡ how_many has_messages rs + report.files
unfolding collect add_result how_many
files-collect below_max cwd [] report = omega arith
files-collect below_max cwd (r ∷ rs) report =
    let rest = files-collect below_max cwd rs (add_result below_max cwd r report) in
    let rel = remove_first (cwd ++ lit "/") r.file_path in
    let here = add_messages-files below_max rel r.messages (count_file report) in
    let one = count_file-step report in
    elim (Bool-cases (is_empty r.messages)) [
      | inl e ↦
          let same : (add_result below_max cwd r report).files ≡ report.files = rw e refl in
          rw e (omega (arith, rest, same))
      | inr e ↦
          let more : (add_result below_max cwd r report).files ≡ suc report.files =
            rw e (here ∙ one) in
          rw e (omega (arith, rest, more))
    ]

plus-zero : {a b : ℕ} → a ≡ b + 0 → a ≡ b
plus-zero h = omega (arith, h)

errors-add_message :
    (below_max : ℕ → Bool) (rel : Text) (m : Message) (report : Report)
    → (add_message below_max rel m report).errors
      ≡ (if is_error m then suc report.errors else report.errors)
unfolding add_message
errors-add_message below_max rel m report = refl

warnings-add_message :
    (below_max : ℕ → Bool) (rel : Text) (m : Message) (report : Report)
    → (add_message below_max rel m report).warnings
      ≡ (if not (is_error m) then suc report.warnings else report.warnings)
unfolding add_message
warnings-add_message below_max rel m report = ground arith

-- Take results of the linter, and a `MAX` that is a whole number. The report counts the messages of
-- severity 2 as errors, the others as warnings, and the results that have messages as files. Under
-- each rule stands the number of messages that name it, and there is a parse error for each message
-- that names none. Each rule has as many examples as the printed text says that it shows.
pub collect-IsReportOf :
    (cap : ℕ) (cwd : Text) (results : List LintResult)
    → IsReportOf cap results (collect (λ n. ltb n cap) cwd results empty_report)
unfolding count_file count_of
collect-IsReportOf cap cwd results =
    let below = λ (n : ℕ). ltb n cap in
    record {
      errors = plus-zero (
          part-collect below is_error (λ r. r.errors) (errors-add_message below) (λ r. refl) cwd
            results empty_report);
      warnings = plus-zero (
          part-collect below (λ m. not (is_error m)) (λ r. r.warnings) (warnings-add_message below)
            (λ r. refl) cwd results empty_report);
      files = plus-zero (files-collect below cwd results empty_report);
      of_rule = λ rule. plus-zero (
          part-collect below (λ m. names_rule rule m.rule) (λ r. count_of rule r.rules)
            (count_of-add_message below rule) (λ r. refl) cwd results empty_report);
      unparsed = plus-zero (
          part-collect below (λ m. names_none m.rule) (λ r. length r.parse_errors)
            (unparsed-add_message below) (λ r. refl) cwd results empty_report);
      capped = collect-IsCapped cap cwd results empty_report tt;
    }
