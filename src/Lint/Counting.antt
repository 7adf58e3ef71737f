-- ===== src/Lint/Counting.antt =====
-- .ores-lint/eslint/formatter.mjs: how a message changes the counts of the report.
use mathlib.Core.List.{flat_map}
use cliptown_lib_core.Prelude.{
  ℕ, suc, ◌+◌, ◌≡◌, refl, Bool, true, false, not, List, [], ◌∷◌, ◌++◌, Option, none, some, arith,
  length, length-append, Bool-cases, inl, inr, ◌==◌, if◌then◌else◌, is_empty, ◌∙◌, ap,
}
use cliptown_lib_core.Text.{Text, text_eq, lit, concat}
use cliptown_lib_core.Text.Equality.{text_eq→eq}
use cliptown_lib_core.Lint.{
  Message, LintResult, RuleEntry, Report, count_message, add_to_rule, add_message, add_messages,
  count_file, add_result, collect, place_of, line_or_zero, remove_first,
}

-- How many elements pass a test.
unfoldable pub how_many {ℓ} : {A : Type ℓ} → (A → Bool) → List A → ℕ
how_many p [] = 0
how_many p (x ∷ xs) = if p x then suc (how_many p xs) else how_many p xs

unfoldable pub all_messages : List LintResult → List Message
unfolding flat_map
all_messages results = flat_map (λ r. r.messages) results

abbrev pub is_error : Message → Bool
is_error m = m.severity == 2

abbrev pub has_messages : LintResult → Bool
has_messages r = not (is_empty r.messages)

unfoldable pub names_rule : Text → Option Text → Bool
names_rule rule none = false
names_rule rule (some other) = text_eq other rule

unfoldable pub names_none : Option Text → Bool
names_none none = true
names_none (some other) = false

-- The count that stands in the report under a rule.
unfoldable pub count_of : Text → List (Text × RuleEntry) → ℕ
count_of rule [] = 0
count_of rule ((r, entry) ∷ rest) = (if text_eq r rule then entry.count else 0) + count_of rule rest

how_many-append :
    {A : Type 0} (p : A → Bool) (xs ys : List A)
    → how_many p (xs ++ ys) ≡ how_many p xs + how_many p ys
unfolding how_many
how_many-append p [] ys = omega arith
how_many-append p (x ∷ xs) ys =
    let rest = how_many-append p xs ys in
    elim (Bool-cases (p x)) [ inl e ↦ rw e (omega (arith, rest)) | inr e ↦ rw e rest ]

-- A number of the report that a message raises by one where it passes a test.
module _ (below_max : ℕ → Bool) (p : Message → Bool) (part : Report → ℕ)
    (step : (rel : Text) (m : Message) (report : Report)
      → part (add_message below_max rel m report)
        ≡ (if p m then suc (part report) else part report))
    (file : (report : Report) → part (count_file report) ≡ part report) where
  part-add_messages :
      (rel : Text) (ms : List Message) (report : Report)
      → part (add_messages below_max rel ms report) ≡ how_many p ms + part report
  unfolding add_messages how_many
  part-add_messages rel [] report = omega arith
  part-add_messages rel (m ∷ ms) report =
      let rest = part-add_messages rel ms (add_message below_max rel m report) in
      let here = step rel m report in
      elim (Bool-cases (p m)) [
        | inl e ↦
            let one : part (add_message below_max rel m report) ≡ suc (part report) =
              rw e at here in
            rw e (omega (arith, rest, one))
        | inr e ↦
            let same : part (add_message below_max rel m report) ≡ part report = rw e at here in
            rw e (omega (arith, rest, same))
      ]

  part-add_result :
      (cwd : Text) (r : LintResult) (report : Report)
      → part (add_result below_max cwd r report) ≡ how_many p r.messages + part report
  unfolding add_result how_many is_empty
  part-add_result cwd r report = go r.messages
    where
      go :
          (ms : List Message)
          → part (
              if is_empty ms
              then report
              else add_messages below_max
                  (remove_first (cwd ++ lit "/") r.file_path)
                  ms
                  (count_file report))
            ≡ how_many p ms + part report
      go [] = omega arith
      go (m ∷ ms) =
          part-add_messages (remove_first (cwd ++ lit "/") r.file_path) (m ∷ ms) (count_file report)
          ∙ ap (λ n. how_many p (m ∷ ms) + n) (file report)

  pub part-collect :
      (cwd : Text) (rs : List LintResult) (report : Report)
      → part (collect below_max cwd rs report) ≡ how_many p (all_messages rs) + part report
  unfolding collect all_messages flat_map how_many
  part-collect cwd [] report = omega arith
  part-collect cwd (r ∷ rs) report =
      let rest = part-collect cwd rs (add_result below_max cwd r report) in
      let here = part-add_result cwd r report in
      let both = how_many-append p r.messages (all_messages rs) in omega (arith, rest, here, both)

-- A message of a rule adds one to the count of that rule and to no other count.
count_of-add_to_rule :
    (below_max : ℕ → Bool) (rule other place : Text) (m : Message) (rules : List (Text × RuleEntry))
    → count_of rule (add_to_rule below_max other place m rules)
      ≡ (if text_eq other rule then suc (count_of rule rules) else count_of rule rules)
unfolding count_of add_to_rule count_message
count_of-add_to_rule below_max rule other place m [] = elim (Bool-cases (text_eq other rule)) [
  | inl e ↦ rw e refl
  | inr e ↦ rw e refl
]
count_of-add_to_rule below_max rule other place m ((r, entry) ∷ rest) =
    elim (Bool-cases (text_eq r other)) [
      | inl e ↦
          let same = text_eq→eq r other e in
          rw (e, same)
            (elim (Bool-cases (text_eq other rule)) [
              | inl f ↦ rw f (omega arith)
              | inr f ↦ rw f refl
            ])
      | inr e ↦
          let later = count_of-add_to_rule below_max rule other place m rest in
          rw (e, later)
            (elim (Bool-cases (text_eq other rule)) [
              | inl f ↦ rw f (omega arith)
              | inr f ↦ rw f refl
            ])
    ]

pub count_of-add_message :
    (below_max : ℕ → Bool) (rule rel : Text) (m : Message) (report : Report)
    → count_of rule (add_message below_max rel m report).rules ≡ (
        if names_rule rule m.rule
        then suc (count_of rule report.rules)
        else count_of rule report.rules)
unfolding add_message names_rule
count_of-add_message below_max rule rel m report = go m.rule
  where
    go :
        (o : Option Text)
        → count_of rule (elim o [
          | none ↦ report.rules
          | some other ↦ add_to_rule below_max other (place_of rel m) m report.rules
        ])
          ≡ (if names_rule rule o
              then suc (count_of rule report.rules)
              else count_of rule report.rules)
    go none = refl
    go (some other) = count_of-add_to_rule below_max rule other (place_of rel m) m report.rules

pub unparsed-add_message :
    (below_max : ℕ → Bool) (rel : Text) (m : Message) (report : Report)
    → length (add_message below_max rel m report).parse_errors
      ≡ (if names_none m.rule then suc (length report.parse_errors) else length report.parse_errors)
unfolding add_message names_none
unparsed-add_message below_max rel m report = go m.rule
  where
    line : Text
    line = concat (rel ∷ lit ":" ∷ line_or_zero m.line ∷ lit ": " ∷ m.message ∷ [])

    go :
        (o : Option Text)
        → length
            (elim o [ none ↦ report.parse_errors ++ line ∷ [] | some other ↦ report.parse_errors ])
          ≡ (if names_none o then suc (length report.parse_errors) else length report.parse_errors)
    go none = let more = length-append report.parse_errors (line ∷ []) in omega (arith, more)
    go (some other) = refl
