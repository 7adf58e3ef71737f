-- ===== src/Lint.antt =====
-- .ores-lint/eslint/formatter.mjs: the report of the lint run. Names of rules are taken to be none
-- of those that every object inherits. `MAX` comes from the environment: the collecting loop takes the
-- test whether a number is below it, whatever it is, and the printed text a `MAX` that is a whole number.
pub mod Counting
pub mod Capped
pub mod Counts
pub mod Chains
pub mod RequireSend
pub mod Semi
use mathlib.Core.List.{flat_map}
use cliptown_lib_core.Prelude.{
  ℕ, suc, ◌+◌, ◌-◌, Bool, true, false, ◌&&◌, ◌||◌, not, List, [], ◌∷◌, ◌++◌, map, Option, none,
  some, ltb, leb, ◌==◌, if◌then◌else◌, length, is_empty,
}
use cliptown_lib_core.Text.{Text, lit, text_eq, starts_with, join, concat, digits, is_blank}

-- A message of ESLint; `rule` is `none` where there is no rule, or an empty one.
pub record Message : Type 0 where
  pub rule : Option Text
  pub severity : ℕ
  pub line : Option ℕ
  pub column : Option ℕ
  pub message : Text

pub record LintResult : Type 0 where
  pub file_path : Text
  pub messages : List Message

pub record RuleEntry : Type 0 where
  pub count : ℕ
  pub examples : List Text
  pub severity : ℕ
  pub message : Text

pub record Report : Type 0 where
  pub rules : List (Text × RuleEntry)
  pub files : ℕ
  pub errors : ℕ
  pub warnings : ℕ
  pub parse_errors : List Text

unfoldable pub drop_units : ℕ → Text → Text
drop_units n [] = []
drop_units n (c ∷ s) = let rest = drop_units (n - 1) s in if n == 0 then c ∷ s else rest

-- `s.replace(prefix, '')`: the first occurrence.
unfoldable pub remove_first : Text → Text → Text
remove_first p [] = []
remove_first p (c ∷ s) =
    let rest = remove_first p s in
    if starts_with (c ∷ s) p then drop_units (length p) (c ∷ s) else c ∷ rest

-- A number in a template.
unfoldable pub shown : Option ℕ → Text
shown none = lit "undefined"
shown (some n) = digits n

-- `m.line || 0`.
unfoldable pub line_or_zero : Option ℕ → Text
line_or_zero none = lit "0"
line_or_zero (some n) = digits n

unfoldable pub place_of : Text → Message → Text
place_of rel m = concat (rel ∷ lit ":" ∷ shown m.line ∷ lit ":" ∷ shown m.column ∷ [])

-- One more message of a rule, at a place.
unfoldable pub count_message : (ℕ → Bool) → Text → RuleEntry → RuleEntry
count_message below_max place entry = record {
  count = suc entry.count;
  examples =
      if below_max (length entry.examples) then entry.examples ++ place ∷ [] else entry.examples;
  severity = entry.severity;
  message = entry.message;
}

unfoldable pub add_to_rule :
    (ℕ → Bool) → Text → Text → Message → List (Text × RuleEntry) → List (Text × RuleEntry)
add_to_rule below_max rule place m [] =
    (
      rule,
      count_message below_max place
          (record { count = 0; examples = []; severity = m.severity; message = m.message }),
    )
    ∷ []
add_to_rule below_max rule place m ((r, entry) ∷ rest) =
    if text_eq r rule
    then (r, count_message below_max place entry) ∷ rest
    else (r, entry) ∷ add_to_rule below_max rule place m rest

unfoldable pub add_message : (ℕ → Bool) → Text → Message → Report → Report
add_message below_max rel m report = record {
  rules = elim m.rule [
    | none ↦ report.rules
    | some rule ↦ add_to_rule below_max rule (place_of rel m) m report.rules
  ];
  files = report.files;
  errors = if m.severity == 2 then suc report.errors else report.errors;
  warnings = if m.severity == 2 then report.warnings else suc report.warnings;
  parse_errors = elim m.rule [
    | none ↦
        report.parse_errors
        ++ concat (rel ∷ lit ":" ∷ line_or_zero m.line ∷ lit ": " ∷ m.message ∷ []) ∷ []
    | some rule ↦ report.parse_errors
  ];
}

unfoldable pub add_messages : (ℕ → Bool) → Text → List Message → Report → Report
add_messages below_max rel [] report = report
add_messages below_max rel (m ∷ ms) report =
    add_messages below_max rel ms (add_message below_max rel m report)

unfoldable pub count_file : Report → Report
count_file report = record {
  rules = report.rules;
  files = suc report.files;
  errors = report.errors;
  warnings = report.warnings;
  parse_errors = report.parse_errors;
}

unfoldable pub add_result : (ℕ → Bool) → Text → LintResult → Report → Report
add_result below_max cwd result report =
    if is_empty result.messages
    then report
    else add_messages below_max (remove_first (cwd ++ lit "/") result.file_path) result.messages
        (count_file report)

-- The loop over the results.
unfoldable pub collect : (ℕ → Bool) → Text → List LintResult → Report → Report
collect below_max cwd [] report = report
collect below_max cwd (r ∷ rs) report = collect below_max cwd rs (add_result below_max cwd r report)

abbrev pub empty_report : Report
empty_report = record { rules = []; files = 0; errors = 0; warnings = 0; parse_errors = [] }

-- `LABELS[ruleId]`.
unfoldable pub house_label : Text → Option Text
house_label rule =
    if text_eq rule (lit "semi") || text_eq rule (lit "ores/semi")
    then some (lit "missing semicolon (ores house style)")
    else if text_eq rule (lit "ores/require-send")
    then some (lit "logging chain never delivered (ores custom rule)")
    else none

unfoldable pub is_house : Text → Bool
is_house rule = elim (house_label rule) [ none ↦ false | some label ↦ true ]

-- Whether the comparison puts the first before the second.
unfoldable pub ranks_before : Text × RuleEntry → Text × RuleEntry → Bool
ranks_before (r, a) (q, b) =
    if is_house r
    then (if is_house q then ltb b.count a.count else true)
    else if is_house q
    then false
    else ltb b.count a.count

unfoldable pub insert_ranked : Text × RuleEntry → List (Text × RuleEntry) → List (Text × RuleEntry)
insert_ranked e [] = e ∷ []
insert_ranked e (d ∷ ds) = if ranks_before d e then d ∷ insert_ranked e ds else e ∷ d ∷ ds

-- `[...byRule.entries()].sort(…)`, which is stable.
unfoldable pub ranked : List (Text × RuleEntry) → List (Text × RuleEntry)
ranked [] = []
ranked (e ∷ es) = insert_ranked e (ranked es)

unfoldable pub at_most : ℕ → ℕ → ℕ
at_most a b = if leb a b then a else b

unfoldable pub first_texts : ℕ → List Text → List Text
first_texts n [] = []
first_texts n (t ∷ ts) = let rest = first_texts (n - 1) ts in if n == 0 then [] else t ∷ rest

unfoldable pub remainder_line : ℕ → ℕ → List Text
remainder_line cap count =
    if ltb cap count
    then concat (lit "      ... and " ∷ digits (count - cap) ∷ lit " more" ∷ []) ∷ []
    else []

unfoldable pub rule_lines : ℕ → Text × RuleEntry → List Text
rule_lines cap (rule, entry) =
    []
      ∷ concat (
          lit "  "
          ∷ (if entry.severity == 2 then lit "error" else lit "warning")
          ∷ lit ": "
          ∷ elim (house_label rule) [ none ↦ entry.message | some label ↦ label ]
          ∷ lit "  ["
          ∷ rule
          ∷ lit "]"
          ∷ [])
      ∷ concat (
          lit "    "
          ∷ digits entry.count
          ∷ lit " instance(s); showing "
          ∷ digits (at_most entry.count cap)
          ∷ lit ":"
          ∷ [])
      ∷ map (λ ex. lit "      " ++ ex) entry.examples
    ++ remainder_line cap entry.count

unfoldable pub parse_error_lines : ℕ → List Text → List Text
parse_error_lines cap [] = []
parse_error_lines cap (e ∷ es) =
    []
      ∷ concat (
          lit "  note: "
          ∷ digits (length (e ∷ es))
          ∷ lit " file(s) could not be parsed (usually a missing parser, not a defect):"
          ∷ [])
      ∷ map (λ p. lit "      " ++ p) (first_texts cap (e ∷ es))
    ++ remainder_line cap (length (e ∷ es))

unfoldable pub print_report : ℕ → Report → Text
print_report cap report =
    if is_empty report.rules && is_empty report.parse_errors
    then lit "ores-lint[js]: clean\n"
    else join (lit "\n") (
        concat (
            lit "ores-lint[js]: "
            ∷ digits (report.errors + report.warnings)
            ∷ lit " finding(s) across "
            ∷ digits (length report.rules)
            ∷ lit " rule(s) in "
            ∷ digits report.files
            ∷ lit " file(s)"
            ∷ [])
          ∷ flat_map (rule_lines cap) (ranked report.rules)
        ++ parse_error_lines cap report.parse_errors
        ++ [] ∷ [])
      ++ lit "\n"

-- `oresFormatter`.
unfoldable pub ores_formatter : ℕ → Text → List LintResult → Text
ores_formatter cap cwd results =
    print_report cap (collect (λ n. ltb n cap) cwd results empty_report)
