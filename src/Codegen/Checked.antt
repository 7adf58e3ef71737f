-- ===== src/Codegen/Checked.antt =====
-- tools/schema-orm-codegen.mjs: `checkGenerated` accepts the directory that `writeGenerated` leaves.
use mathlib.Core.List.{flat_map}
use cliptown_lib_core.Prelude.{
  ◌≡◌, refl, ◌≢◌, ◌∙◌, sym, ap, inl, inr, true, false, List, [], ◌∷◌, ◌++◌, Option, none, some, ok,
  arith, keep, All, All-tabulate, All-append, Bool, ◌&&◌, Bool-cases, append-nil, map-append,
  append_assoc,
}
use cliptown_lib_core.Text.{Text, lit, text_eq}
use cliptown_lib_core.Text.Equality.{text_eq_refl, text_eq→eq, Distinct}
use cliptown_lib_core.Json.{text_array}
use cliptown_lib_core.Json.Stringify.{stringify}
use cliptown_lib_core.Sql.{lookup}
use cliptown_lib_core.Codegen.Storage.{stored, are_plain}
use cliptown_lib_core.Codegen.Sorting.{keep-insertion_sort, keep-insertion_sort_last}
use cliptown_lib_core.Codegen.Files.{
  FileList, paths, policy_readme, sorted, list_files, kept, write_file, write_files, restore,
  write_generated, is_generated, stale, stale_content, differing, failures, conclude,
  check_generated,
}

-- Writing a file of a new path puts it behind the others.
write_file-new :
    (path content : Text) (directory : FileList)
    → All (λ q. q ≢ path) (paths directory)
    → write_file path content directory ≡ directory ++ (path, stored content) ∷ []
unfolding write_file
write_file-new path content [] h = refl
write_file-new path content ((q, c) ∷ rest) h = elim (Bool-cases (text_eq q path)) [
  | inl e ↦ absurd (h.0 (text_eq→eq q path e))
  | inr e ↦ rw (e, write_file-new path content rest h.1) refl
]

pub paths-kept : (fs : FileList) → paths (kept fs) ≡ paths fs
unfolding kept
paths-kept [] = refl
paths-kept (f ∷ fs) = ap (λ ps. f.0 ∷ ps) (paths-kept fs)

add-path :
    (done : FileList) (path content : Text) (fs : FileList)
    → All (λ t. path ≢ t) (paths fs)
    → All (λ (f : Text × Text). All (λ q. q ≢ f.0) (paths done)) fs
    → All (λ (f : Text × Text). All (λ q. q ≢ f.0) (paths (done ++ (path, content) ∷ []))) fs
add-path done path content [] h k = tt
add-path done path content (f ∷ fs) h k = (
  rw map-append (All-append (λ q. q ≢ f.0) (paths done) (path ∷ []) k.0 (h.0, tt)),
  add-path done path content fs h.1 k.1,
)

write_files-append :
    (fs done : FileList)
    → Distinct (paths fs)
    → All (λ (f : Text × Text). All (λ q. q ≢ f.0) (paths done)) fs
    → write_files fs done ≡ done ++ kept fs
unfolding write_files kept
write_files-append [] done d h = sym (append-nil done)
write_files-append ((path, content) ∷ fs) done d h =
    rw
      (
        write_file-new path content done h.0,
        write_files-append fs (done ++ (path, stored content) ∷ []) d.1
            (add-path done path (stored content) fs d.0 h.1),
      )
      (append_assoc done _ (kept fs))

-- The contents of the files are read back as they were written: no surrogate stands in them without
-- its other half.
abbrev pub AreStored : FileList → Type 0
AreStored files = All (λ (f : Text × Text). stored f.1 ≡ f.1) files

-- The same as a test.
unfoldable pub are_stored : FileList → Bool
unfolding text_eq
are_stored [] = true
are_stored (f ∷ fs) = text_eq (stored f.1) f.1 && are_stored fs

pub are_stored-AreStored : (fs : FileList) → are_stored fs ≡ true → AreStored fs
unfolding are_stored
are_stored-AreStored [] h = tt
are_stored-AreStored (f ∷ fs) h =
    let here : text_eq (stored f.1) f.1 ≡ true = ground arith in
    (text_eq→eq (stored f.1) f.1 here, are_stored-AreStored fs (ground arith))

kept-eq : (fs : FileList) → AreStored fs → kept fs ≡ fs
unfolding kept
kept-eq [] h = refl
kept-eq (f ∷ fs) h = rw (h.0, kept-eq fs h.1) refl

-- The files that the directory holds by their paths.
abbrev Holds : FileList → FileList → Type 0
Holds directory fs = All (λ (f : Text × Text). lookup f.0 directory ≡ some f.1) fs

lookup-later :
    (path content : Text) (directory fs : FileList)
    → All (λ t. path ≢ t) (paths fs)
    → Holds directory fs
    → Holds ((path, content) ∷ directory) fs
unfolding lookup
lookup-later path content directory [] h k = tt
lookup-later path content directory (f ∷ fs) h k = (
  elim (Bool-cases (text_eq path f.0)) [
    | inl e ↦ absurd (h.0 (text_eq→eq path f.0 e))
    | inr e ↦ rw e k.0
  ],
  lookup-later path content directory fs h.1 k.1,
)

lookup-own : (fs more : FileList) → Distinct (paths fs) → Holds (fs ++ more) fs
unfolding lookup
lookup-own [] more d = tt
lookup-own ((path, content) ∷ fs) more d = (
  rw (text_eq_refl path) refl,
  lookup-later path content (fs ++ more) fs d.0 (lookup-own fs more d.1),
)

stale-held :
    (path content : Text) (directory : FileList)
    → lookup path directory ≡ some content
    → stale directory (path, content) ≡ []
unfolding stale stale_content
stale-held path content directory h = rw (h, text_eq_refl content) refl

none_stale : (directory fs : FileList) → Holds directory fs → flat_map (stale directory) fs ≡ []
unfolding flat_map
none_stale directory [] h = refl
none_stale directory (f ∷ fs) h =
    rw (stale-held f.0 f.1 directory h.0) (none_stale directory fs h.1)

differing-same : (ts : List Text) → differing ts ts ≡ []
unfolding differing
differing-same ts = rw (text_eq_refl (stringify (text_array ts))) refl

-- Nothing fails in a directory that holds the files and lists the same generated paths.
check_generated-ok :
    (files directory : FileList)
    → keep is_generated (list_files directory) ≡ sorted (paths files)
    → Holds directory files
    → check_generated files directory ≡ ok tt
unfolding check_generated conclude failures
check_generated-ok files directory same holds =
    rw (same, differing-same (sorted (paths files)), none_stale directory files holds) refl

-- Files as `generateFiles` produces them: no path twice, none that of the policy file, and all of
-- them, with the policy file, at plain paths beside each other.
abbrev pub IsOutput : FileList → Type 0
IsOutput files =
    Distinct (paths files)
    × All (λ t. is_generated t ≡ true) (paths files)
    × (are_plain (policy_readme ∷ paths files) ≡ true)

readme-new :
    (ps : List Text) → All (λ t. is_generated t ≡ true) ps → All (λ q. q ≢ policy_readme) ps
unfolding is_generated
readme-new [] h = tt
readme-new (p ∷ ps) h = (
  λ same.
      let hit : text_eq p policy_readme ≡ true = rw same (text_eq_refl policy_readme) in
      ground arith,
  readme-new ps h.1,
)

readme_dropped : is_generated policy_readme ≡ false
unfolding is_generated text_eq lit
readme_dropped = refl

-- The policy file with the content that it had, if it stood there.
abbrev pub policy_file : Option Text → FileList
policy_file none = []
policy_file (some content) = (policy_readme, stored content) ∷ []

-- What `writeGenerated` leaves: the files, then the policy file where there was one.
pub write_generated-eq :
    (files directory : FileList)
    → IsOutput files
    → write_generated files directory ≡ kept files ++ policy_file (lookup policy_readme directory)
unfolding write_generated restore
write_generated-eq files directory (d, g, _) =
    rw (write_files-append files [] d (All-tabulate _ (λ _. tt) files))
      (go (lookup policy_readme directory))
  where
    go : (o : Option Text) → restore o (kept files) ≡ kept files ++ policy_file o
    go none = sym (append-nil (kept files))
    go (some c) =
        write_file-new policy_readme c (kept files)
          (rw (paths-kept files) (readme-new (paths files) g))

listed-readme :
    (files : FileList) (o : Option Text)
    → All (λ t. is_generated t ≡ true) (paths files)
    → keep is_generated (list_files (files ++ policy_file o)) ≡ sorted (paths files)
unfolding list_files sorted
listed-readme files none h = rw append-nil (keep-insertion_sort is_generated (paths files) h)
listed-readme files (some c) h =
    rw map-append
      (keep-insertion_sort_last is_generated (paths files) policy_readme h readme_dropped)

-- `checkGenerated` accepts the directory that `writeGenerated` leaves, whatever it held before; a
-- policy file that stood there does not count as a difference.
pub check_generated-write_generated :
    (files directory : FileList)
    → IsOutput files
    → AreStored files
    → check_generated files (write_generated files directory) ≡ ok tt
check_generated-write_generated files directory (d, g, plain) contents =
    rw (write_generated-eq files directory (d, g, plain), kept-eq files contents)
      (check_generated-ok files _ (listed-readme files (lookup policy_readme directory) g)
        (lookup-own files _ d))

-- Take files whose paths are distinct and plain, none of them that of the policy file and none of
-- them below another. A policy file that stood in the directory is kept by `writeGenerated` with its
-- content, and all other files of the old directory are gone: what stands there is the files and the
-- policy file, each with its content as UTF-8 keeps it.
pub write_generated-keeps_readme :
    (files directory : FileList) (content : Text)
    → IsOutput files
    → lookup policy_readme directory ≡ some content
    → write_generated files directory ≡ kept files ++ (policy_readme, stored content) ∷ []
write_generated-keeps_readme files directory content h found =
    write_generated-eq files directory h ∙ ap (λ o. kept files ++ policy_file o) found
