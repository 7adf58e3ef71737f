-- ===== src/Embeddings/Runs.antt =====
-- scripts/embeddings/generate.mjs: what a run with and without `--check` leaves and reports.
use cliptown_lib_core.Prelude.{
  ◌≡◌, refl, sym, ap, ◌∙◌, ◌≢◌, ◌↔◌, inl, inr, Bool, true, false, not, arith, any, all, all_sound,
  List, [], ◌∷◌, Option, none, some, All, ok, Bool-cases,
}
use cliptown_lib_core.Text.{Text, lit, text_eq, is_one_of}
use cliptown_lib_core.Text.Equality.{text_eq_refl, text_eq→eq, Distinct}
use cliptown_lib_core.Sql.{lookup}
use cliptown_lib_core.Schema.Entities.{distinct}
use cliptown_lib_core.Schema.WellFormed.Entities.{distinct-Distinct}
use cliptown_lib_core.Codegen.Files.{FileList, paths, write_file, write_files}
use cliptown_lib_core.Codegen.Storage.{stored, resolve_path, are_plain}
use cliptown_lib_core.Codegen.Checked.{AreStored}
use cliptown_lib_core.Embeddings.{Setup}
use cliptown_lib_core.Embeddings.Outputs.{
  setup_outputs, resolved, outputs_with, differs, stale_paths, Run, check_run, write_run, generate,
}
use cliptown_lib_core.Embeddings.Split.{pg_parts_total}

pub text_eq-differs : (s t : Text) → s ≢ t → text_eq s t ≡ false
text_eq-differs s t n = elim (Bool-cases (text_eq s t)) [
  | inl e ↦ absurd (n (text_eq→eq s t e))
  | inr e ↦ e
]

not-eq-false : (b : Bool) → not b ≡ false → b ≡ true
not-eq-false b h = ground arith

cons-nil : (path : Text) (paths : List Text) → path ∷ paths ≢ []
cons-nil path paths h = cc

lookup-write_file :
    (path content : Text) (directory : FileList)
    → lookup path (write_file path content directory) ≡ some (stored content)
unfolding lookup write_file
lookup-write_file path content [] = rw (text_eq_refl path) refl
lookup-write_file path content ((q, c) ∷ rest) = elim (Bool-cases (text_eq q path)) [
  | inl e ↦ rw (e, e) refl
  | inr e ↦ rw (e, e) (lookup-write_file path content rest)
]

lookup-write_file_other :
    (path content other : Text) (directory : FileList)
    → other ≢ path
    → lookup other (write_file path content directory) ≡ lookup other directory
unfolding lookup write_file
lookup-write_file_other path content other [] n =
    rw (text_eq-differs path other (λ e. n (sym e))) refl
lookup-write_file_other path content other ((q, c) ∷ rest) n = elim (Bool-cases (text_eq q path)) [
  | inl e ↦ rw (e, text_eq-differs q other (λ h. n (sym h ∙ text_eq→eq q path e))) refl
  | inr e ↦ elim (Bool-cases (text_eq q other)) [
    | inl f ↦ rw (e, f) refl
    | inr f ↦ rw (e, f) (lookup-write_file_other path content other rest n)
  ]
]

lookup-write_files_other :
    (files directory : FileList) (other : Text)
    → All (λ t. other ≢ t) (paths files)
    → lookup other (write_files files directory) ≡ lookup other directory
unfolding write_files
lookup-write_files_other [] directory other h = refl
lookup-write_files_other ((path, content) ∷ files) directory other h =
    lookup-write_files_other files (write_file path content directory) other h.1
    ∙ lookup-write_file_other path content other directory h.0

-- The directory has each of the files with its content.
abbrev pub Holds : FileList → FileList → Type 0
Holds files directory =
    All (λ (f : Text × Text). lookup (resolve_path f.0) directory ≡ some f.1) files

write_files-Holds :
    (files directory : FileList)
    → Distinct (paths (resolved files))
    → AreStored files
    → Holds files (write_files (resolved files) directory)
unfolding write_files resolved
write_files-Holds [] directory d k = tt
write_files-Holds ((path, content) ∷ files) directory d k = (
  lookup-write_files_other (resolved files) (write_file (resolve_path path) content directory)
        (resolve_path path) d.0
      ∙ lookup-write_file (resolve_path path) content directory
      ∙ ap some k.0,
  write_files-Holds files (write_file (resolve_path path) content directory) d.1 k.1,
)

stale_paths-Holds :
    (files directory : FileList) → Holds files directory → stale_paths files directory ≡ []
unfolding stale_paths differs
stale_paths-Holds [] directory h = refl
stale_paths-Holds ((path, content) ∷ files) directory h =
    rw (h.0, text_eq_refl content) (stale_paths-Holds files directory h.1)

differs-eq-false :
    (content : Text) (found : Option Text) → differs content found ≡ false → found ≡ some content
unfolding differs
differs-eq-false content none h = cc
differs-eq-false content (some actual) h = ap some (text_eq→eq actual content (not-eq-false _ h))

stale_paths-eq-empty :
    (files directory : FileList) → stale_paths files directory ≡ [] → Holds files directory
unfolding stale_paths
stale_paths-eq-empty [] directory h = tt
stale_paths-eq-empty ((path, content) ∷ files) directory h =
    elim (Bool-cases (differs content (lookup (resolve_path path) directory))) [
      | inl e ↦ absurd (cons-nil path (stale_paths files directory) (rw e at h))
      | inr e ↦ (
        differs-eq-false content (lookup (resolve_path path) directory) e,
        stale_paths-eq-empty files directory (rw e at h),
      )
    ]

check_run-code :
    (s : Setup) (files directory : FileList) (stale : List Text)
    → ((check_run s files directory stale).exit_code ≡ 0) ↔ (stale ≡ [])
unfolding check_run
check_run-code s files directory [] = (λ h. refl, λ h. refl)
check_run-code s files directory (path ∷ stale) =
    (λ h. absurd (omega (arith, h)), λ h. absurd (cons-nil path stale h))

check_run-files :
    (s : Setup) (files directory : FileList) (stale : List Text)
    → (check_run s files directory stale).files ≡ directory
unfolding check_run
check_run-files s files directory [] = refl
check_run-files s files directory (path ∷ stale) = refl

-- A run with `--check` writes nothing, and its exit code is 0 exactly where each of the generated
-- files stands in the repository, at its resolved path, with its content.
pub generate-check :
    (s : Setup) (directory files : FileList)
    → setup_outputs s ≡ ok files
    → (run : Run) × (generate true s directory ≡ ok run)
      × (run.files ≡ directory)
      × ((run.exit_code ≡ 0) ↔ Holds files directory)
unfolding generate
generate-check s directory files h =
    let stale = stale_paths files directory in
    let code = check_run-code s files directory stale in
    (
      check_run s files directory stale,
      rw h refl,
      check_run-files s files directory stale,
      (
        λ e. stale_paths-eq-empty files directory (code.0 e),
        λ e. code.1 (stale_paths-Holds files directory e),
      ),
    )

outputs_with-distinct :
    (s : Setup) (parts : Text × Text) → distinct (paths (outputs_with s parts)) ≡ true
unfolding outputs_with distinct is_one_of any text_eq lit
outputs_with-distinct s parts = refl

outputs_with-Distinct : (s : Setup) (parts : Text × Text) → Distinct (paths (outputs_with s parts))
outputs_with-Distinct s parts =
    distinct-Distinct (paths (outputs_with s parts)) (outputs_with-distinct s parts)

setup_outputs-Distinct :
    (s : Setup) (files : FileList) → setup_outputs s ≡ ok files → Distinct (paths files)
unfolding setup_outputs
setup_outputs-Distinct s files h =
    let (parts, e) = pg_parts_total s in
    let made : ok (outputs_with s parts) ≡ ok files = rw e at h in
    let same : outputs_with s parts ≡ files = cc in rw (← same) (outputs_with-Distinct s parts)

-- The files may stand in the repository beside each other: resolving leaves their paths as they are,
-- these have no `.`, `..` or empty segments, none of them lies below another, and no surrogate
-- stands in a content without its other half.
abbrev pub ArePlaced : FileList → Type 0
ArePlaced files =
    (all (λ f. text_eq (resolve_path f.0) f.0) files ≡ true)
    × (are_plain (paths files) ≡ true)
    × AreStored files

paths-resolved :
    (files : FileList)
    → All (λ (f : Text × Text). text_eq (resolve_path f.0) f.0 ≡ true) files
    → paths (resolved files) ≡ paths files
unfolding resolved
paths-resolved [] h = refl
paths-resolved (f ∷ files) h =
    rw (text_eq→eq (resolve_path f.0) f.0 h.0, paths-resolved files h.1) refl

-- Take a setup for whose outputs the following holds: resolving leaves their paths as they are,
-- these have no `.`, `..` or empty segments, none of them lies below another, and no surrogate
-- stands in a content without its other half. Then a run that writes them ends with exit code 0, and
-- the run with `--check` behind it ends with exit code 0 and changes nothing, for any repository in
-- which every write succeeds.
pub generate-generate :
    (s : Setup) (directory files : FileList)
    → setup_outputs s ≡ ok files
    → ArePlaced files
    → (written : Run) × (checked : Run) × (generate false s directory ≡ ok written)
      × (written.exit_code ≡ 0)
      × (generate true s written.files ≡ ok checked)
      × (checked.exit_code ≡ 0)
      × (checked.files ≡ written.files)
unfolding generate write_run
generate-generate s directory files h (stay, plain, contents) =
    let after = write_files (resolved files) directory in
    let (checked, run, kept, code) = generate-check s after files h in
    let distinct_paths : Distinct (paths (resolved files)) =
      rw (paths-resolved files (all_sound _ files stay)) (setup_outputs-Distinct s files h) in
    (
      write_run s files directory,
      checked,
      rw h refl,
      refl,
      run,
      code.1 (write_files-Holds files directory distinct_paths contents),
      kept,
    )
