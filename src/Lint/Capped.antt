-- ===== src/Lint/Capped.antt =====
-- .ores-lint/eslint/formatter.mjs: how many examples stand under a rule.
use cliptown_lib_core.Prelude.{
  ℕ, ◌≡◌, List, [], ◌∷◌, ◌++◌, Option, none, some, arith, length, length-append, All, Bool-cases,
  inl, inr, is_empty, ltb,
}
use cliptown_lib_core.Text.{Text, text_eq, lit}
use cliptown_lib_core.Lint.{
  Message, LintResult, RuleEntry, Report, count_message, add_to_rule, add_message, add_messages,
  count_file, add_result, collect, at_most, place_of, remove_first,
}

-- The number of examples is what the report says that it shows.
abbrev pub IsCapped : ℕ → Text × RuleEntry → Type 0
IsCapped cap e = length e.1.examples ≡ at_most e.1.count cap

count_message-IsCapped :
    (cap : ℕ) (rule place : Text) (entry : RuleEntry)
    → IsCapped cap (rule, entry)
    → IsCapped cap (rule, count_message (λ n. ltb n cap) place entry)
unfolding count_message at_most
count_message-IsCapped cap rule place entry h =
    ground (arith, length-append entry.examples (place ∷ []))

at_most-zero : (cap : ℕ) → 0 ≡ at_most 0 cap
unfolding at_most
at_most-zero cap = ground arith

add_to_rule-IsCapped :
    (cap : ℕ) (rule place : Text) (m : Message) (rules : List (Text × RuleEntry))
    → All (IsCapped cap) rules
    → All (IsCapped cap) (add_to_rule (λ n. ltb n cap) rule place m rules)
unfolding add_to_rule
add_to_rule-IsCapped cap rule place m [] h =
    (count_message-IsCapped cap rule place _ (at_most-zero cap), tt)
add_to_rule-IsCapped cap rule place m ((r, entry) ∷ rest) h = elim (Bool-cases (text_eq r rule)) [
  | inl e ↦ rw e (count_message-IsCapped cap r place entry h.0, h.1)
  | inr e ↦ rw e (h.0, add_to_rule-IsCapped cap rule place m rest h.1)
]

add_messages-IsCapped :
    (cap : ℕ) (rel : Text) (ms : List Message) (report : Report)
    → All (IsCapped cap) report.rules
    → All (IsCapped cap) (add_messages (λ n. ltb n cap) rel ms report).rules
unfolding add_messages add_message
add_messages-IsCapped cap rel [] report h = h
add_messages-IsCapped cap rel (m ∷ ms) report h =
    add_messages-IsCapped cap rel ms (add_message (λ n. ltb n cap) rel m report) (go m.rule)
  where
    go :
        (o : Option Text)
        → All (IsCapped cap) (elim o [
          | none ↦ report.rules
          | some rule ↦ add_to_rule (λ n. ltb n cap) rule (place_of rel m) m report.rules
        ])
    go none = h
    go (some rule) = add_to_rule-IsCapped cap rule (place_of rel m) m report.rules h

pub collect-IsCapped :
    (cap : ℕ) (cwd : Text) (rs : List LintResult) (report : Report)
    → All (IsCapped cap) report.rules
    → All (IsCapped cap) (collect (λ n. ltb n cap) cwd rs report).rules
unfolding collect add_result count_file
collect-IsCapped cap cwd [] report h = h
collect-IsCapped cap cwd (r ∷ rs) report h =
    collect-IsCapped cap cwd rs (add_result (λ n. ltb n cap) cwd r report)
      (elim (Bool-cases (is_empty r.messages)) [
        | inl e ↦ rw e h
        | inr e ↦ rw e (
            add_messages-IsCapped cap (remove_first (cwd ++ lit "/") r.file_path) r.messages
              (count_file report) h)
      ])
