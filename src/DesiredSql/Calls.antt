-- ===== src/DesiredSql/Calls.antt =====
-- scripts/verify-desired-sql-v3.mjs: where the lint passes, the calls in function bodies are qualified.
use mathlib.Core.List.{flat_map}
use cliptown_lib_core.Prelude.{
  ℕ, ◌≡◌, refl, sym, ap, ◌∙◌, inl, inr, Bool, true, false, List, [], ◌∷◌, ◌++◌, map, In,
  if◌then◌else◌, is_empty, keep, arith, ◌⊎◌, ◌==◌, All, All-In, all, all_sound, any, Bool-cases,
}
use cliptown_lib_core.Text.{Text, lit, text_eq, is_one_of, is_space, is_word}
use cliptown_lib_core.Text.Equality.{is_one_of→IsIn}
use cliptown_lib_core.Text.Cut.{after_word}
use cliptown_lib_core.DesiredSql.{
  Call, Policy, SqlFunction, sql_function_bodies, search_path_sensitive, calls_here, qualifies,
  next_line, unqualified_calls, calls_of, check_function, check_unqualified_calls,
}
use cliptown_lib_core.DesiredSql.Patterns.{unit, skip_spaces}
use cliptown_lib_core.DesiredSql.Report.{
  Files, checked, all_calls, all_policies, report, report_problems,
}

-- Whether the last unit of a text that is no space is a point, and whether the last unit belongs to
-- a word; the flag is the answer for the empty text.
unfoldable pub ends_dotted : Bool → Text → Bool
ends_dotted dotted [] = dotted
ends_dotted dotted (c ∷ u) = ends_dotted (qualifies dotted c) u

unfoldable pub ends_word : Bool → Text → Bool
ends_word word [] = word
ends_word word (c ∷ u) = ends_word (is_word c) u

calls_here-nil : (callee : Text) → calls_here callee [] ≡ false
unfolding calls_here after_word unit skip_spaces
calls_here-nil [] = refl
calls_here-nil (a ∷ callee) = refl

if-cons : {A : Type 0} (b : Bool) (x : A) (xs : List A) → (if b then x ∷ xs else xs) ≡ [] → xs ≡ []
if-cons true x xs h = absurd cc
if-cons false x xs h = h

unqualified_calls-qualified :
    (callee : Text) (dotted word : Bool) (line : ℕ) (u v : Text)
    → unqualified_calls callee dotted word line (u ++ v) ≡ []
    → ends_word word u ≡ false
    → calls_here callee v ≡ true
    → ends_dotted dotted u ≡ true
unfolding unqualified_calls ends_word ends_dotted
unqualified_calls-qualified callee dotted word line [] [] h w c =
    let never : false ≡ true = sym (calls_here-nil callee) ∙ c in absurd cc
unqualified_calls-qualified callee true word line [] (d ∷ v) h w c = refl
unqualified_calls-qualified callee false word line [] (d ∷ v) h w c =
    let found : line ∷ _ ≡ [] = rw (w, c) at h in absurd cc
unqualified_calls-qualified callee dotted word line (d ∷ u) v h w c =
    unqualified_calls-qualified callee (qualifies dotted d) (is_word d) (next_line line d) u v
      (if-cons _ line _ h) w c

append-eq-nil : {A : Type 0} (xs ys : List A) → xs ++ ys ≡ [] → (xs ≡ []) × (ys ≡ [])
append-eq-nil [] ys h = (refl, h)
append-eq-nil (x ∷ xs) ys h = absurd cc

flat_map-In :
    {A B : Type 0} (f : A → List B) (x : A) (xs : List A) → flat_map f xs ≡ [] → In x xs → f x ≡ []
unfolding flat_map
flat_map-In f x [] h m = absurd m
flat_map-In f x (y ∷ ys) h (inl e) = ap f e ∙ (append-eq-nil (f y) (flat_map f ys) h).0
flat_map-In f x (y ∷ ys) h (inr m) = flat_map-In f x ys (append-eq-nil (f y) (flat_map f ys) h).1 m

map-eq-nil : {A B : Type 0} (f : A → B) (xs : List A) → map f xs ≡ [] → xs ≡ []
map-eq-nil f [] h = refl
map-eq-nil f (x ∷ xs) h = absurd cc

report_problems-clean :
    (files : Files) (calls : List Call) (policies : List Policy)
    → (report_problems files calls policies).exit_code ≡ 0
    → (calls ≡ []) × (policies ≡ [])
unfolding report_problems is_empty
report_problems-clean files [] [] h = (refl, refl)
report_problems-clean files [] (p ∷ ps) h = absurd (omega (arith, h))
report_problems-clean files (c ∷ cs) policies h = absurd (omega (arith, h))

-- The exit code is 0 only where nothing is found.
report-clean :
    (files : Files)
    → (report files).exit_code ≡ 0
    → (all_calls files ≡ []) × (all_policies files ≡ [])
unfolding report all_calls all_policies checked flat_map keep is_empty
report-clean [] h = (refl, refl)
report-clean (f ∷ fs) h =
    report_problems-clean (f ∷ fs) (all_calls (f ∷ fs)) (all_policies (f ∷ fs)) h

-- The text ends with a point, behind which only spaces may stand.
abbrev pub IsQualified : Text → Type 0
IsQualified u = (w : Text) × (sp : Text) × (u ≡ w ++ b'.' ∷ sp) × All (λ c. is_space c ≡ true) sp

IsQualified-later : (c : ℕ) (u : Text) → IsQualified u → IsQualified (c ∷ u)
IsQualified-later c u (w, sp, parted, spaces) = (c ∷ w, sp, ap (λ t. c ∷ t) parted, spaces)

point-first :
    (c : ℕ) (u : Text) → (c == b'.') ≡ true → All (λ d. is_space d ≡ true) u → IsQualified (c ∷ u)
point-first c u h spaces =
    let point : c ≡ b'.' = ground (arith, h) in ([], u, ap (λ d. d ∷ u) point, spaces)

ends_dotted-cases :
    (dotted : Bool) (u : Text)
    → ends_dotted dotted u ≡ true
    → IsQualified u ⊎ ((dotted ≡ true) × All (λ c. is_space c ≡ true) u)
unfolding ends_dotted qualifies
ends_dotted-cases dotted [] h = inr (h, tt)
ends_dotted-cases dotted (c ∷ u) h = elim (Bool-cases (is_space c)) [
  | inl e ↦ elim (ends_dotted-cases dotted u (rw e at h)) [
    | inl q ↦ inl (IsQualified-later c u q)
    | inr s ↦ inr (s.0, (e, s.1))
  ]
  | inr e ↦ elim (ends_dotted-cases (c == b'.') u (rw e at h)) [
    | inl q ↦ inl (IsQualified-later c u q)
    | inr s ↦ inl (point-first c u s.0 s.1)
  ]
]

ends_dotted-IsQualified : (u : Text) → ends_dotted false u ≡ true → IsQualified u
ends_dotted-IsQualified u h = elim (ends_dotted-cases false u h) [ inl q ↦ q | inr s ↦ absurd cc ]

-- The functions whose calls depend on the search path.
abbrev pub sensitive_names : List Text
sensitive_names =
    lit "array_fill"
    ∷ lit "binary_quantize"
    ∷ lit "cardinality"
    ∷ lit "cosine_distance"
    ∷ lit "inner_product"
    ∷ lit "l1_distance"
    ∷ lit "l2_distance"
    ∷ lit "l2_normalize"
    ∷ lit "subvector"
    ∷ lit "vector_dims"
    ∷ lit "vector_norm"
    ∷ []

are_listed : all (λ name. is_one_of name search_path_sensitive) sensitive_names ≡ true
unfolding all is_one_of any text_eq lit
are_listed = refl

listed : (callee : Text) → In callee sensitive_names → In callee search_path_sensitive
listed callee h = is_one_of→IsIn callee search_path_sensitive (
    All-In (λ t. is_one_of t search_path_sensitive ≡ true) callee sensitive_names
      (all_sound _ sensitive_names are_listed) h)

-- Where the lint exits with 0, take a file that it checks, a function without SET search_path whose
-- body, between two tags of letters and underscores, it finds in the file, and a place in the body
-- where one of the eleven sensitive names is called, at the start of a word: before that stands a
-- point, with nothing but spaces between.
pub report-IsQualified :
    (files : Files) (f : Text × Text) (fn : SqlFunction) (callee u v : Text)
    → (report files).exit_code ≡ 0
    → In f (checked files)
    → In fn (sql_function_bodies 0 1 f.1)
    → fn.has_set_search_path ≡ false
    → In callee sensitive_names
    → fn.body ≡ u ++ v
    → ends_word false u ≡ false
    → calls_here callee v ≡ true
    → IsQualified u
unfolding all_calls check_unqualified_calls check_function calls_of
report-IsQualified files f fn callee u v ok checked_file found unset sensitive parted word call =
    let none_in_file =
      flat_map-In (λ g. check_unqualified_calls g.0 g.1) f (checked files) (report-clean files ok).0
        checked_file in
    let none_in_function =
      flat_map-In (check_function f.0) fn (sql_function_bodies 0 1 f.1) none_in_file found in
    let none_listed : flat_map (calls_of f.0 fn) search_path_sensitive ≡ [] =
      rw unset at none_in_function in
    let none_called =
      flat_map-In (calls_of f.0 fn) callee search_path_sensitive none_listed
        (listed callee sensitive) in
    let none_lines =
      map-eq-nil _ (unqualified_calls callee false false fn.line fn.body) none_called in
    let none_there : unqualified_calls callee false false fn.line (u ++ v) ≡ [] =
      ap (unqualified_calls callee false false fn.line) (sym parted) ∙ none_lines in
    ends_dotted-IsQualified u
      (unqualified_calls-qualified callee false false fn.line u v none_there word call)
