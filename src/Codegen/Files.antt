-- ===== src/Codegen/Files.antt =====
-- tools/schema-orm-codegen.mjs, `listFiles`, `writeGenerated` and `checkGenerated`: the generated
-- directory as the list of its files, each with its path from the root of the directory and the text
-- that is read back from it. A path is one that `join(outputRoot, path)` leaves as it is, and no path
-- lies below another (`are_plain`), as with the paths of `generateFiles`. Every write succeeds.
use mathlib.Core.List.{flat_map}
use cliptown_lib_core.Prelude.{
  Bool, not, ◌&&◌, List, [], ◌∷◌, ◌++◌, map, Option, none, some, if◌then◌else◌, Result, ok, err,
  error, keep,
}
use cliptown_lib_core.Text.{Text, lit, text_eq, join, concat}
use cliptown_lib_core.Codegen.Storage.{stored}
use cliptown_lib_core.Json.{text_array}
use cliptown_lib_core.Json.Stringify.{stringify}
use cliptown_lib_core.Json.Canonical.{text_less, insertion_sort}
use cliptown_lib_core.Sql.{lookup}

abbrev pub FileList : Type 0
FileList = List (Text × Text)

abbrev pub paths : FileList → List Text
paths files = map (λ f. f.0) files

abbrev pub policy_readme : Text
policy_readme = lit "README.md"

-- The files as they are read back once they are written.
unfoldable pub kept : FileList → FileList
unfolding stored
kept files = map (λ f. (f.0, stored f.1)) files

-- `array.sort()` on strings.
unfoldable pub sorted : List Text → List Text
sorted texts = insertion_sort text_less texts

-- `listFiles`.
unfoldable pub list_files : FileList → List Text
list_files directory = sorted (paths directory)

-- `writeFileSync(path, content, 'utf8')`.
unfoldable pub write_file : Text → Text → FileList → FileList
unfolding text_eq stored
write_file path content [] = (path, stored content) ∷ []
write_file path content ((p, c) ∷ rest) =
    if text_eq p path then (p, stored content) ∷ rest else (p, c) ∷ write_file path content rest

unfoldable pub write_files : FileList → FileList → FileList
unfolding write_file
write_files [] directory = directory
write_files ((path, content) ∷ rest) directory =
    write_files rest (write_file path content directory)

unfoldable pub restore : Option Text → FileList → FileList
unfolding write_file lit
restore none directory = directory
restore (some content) directory = write_file policy_readme content directory

-- `writeGenerated`: the directory is removed, so the files are written into an empty one.
unfoldable pub write_generated : FileList → FileList → FileList
unfolding write_files restore lookup
write_generated files directory = restore (lookup policy_readme directory) (write_files files [])

-- The filter of `checkGenerated`.
unfoldable pub is_generated : Text → Bool
unfolding text_eq lit
is_generated path = not (text_eq path policy_readme) && not (text_eq path (lit "readme.md"))

-- The test of one file, whose content in the directory is given.
unfoldable pub stale_content : Text → Text → Option Text → List Text
unfolding text_eq lit
stale_content path content none = []
stale_content path content (some current) =
    if text_eq current content then [] else (path ++ lit " is stale") ∷ []

unfoldable pub stale : FileList → Text × Text → List Text
unfolding lookup stale_content
stale directory (path, content) = stale_content path content (lookup path directory)

-- The failure where the set of files differs.
unfoldable pub differing : List Text → List Text → List Text
unfolding stringify text_array text_eq concat join lit
differing expected actual =
    if text_eq (stringify (text_array expected)) (stringify (text_array actual))
    then []
    else concat (
        lit "generated file set differs\nexpected: "
        ∷ join (lit ", ") expected
        ∷ lit "\nactual: "
        ∷ join (lit ", ") actual
        ∷ [])
      ∷ []

unfoldable pub failures : FileList → FileList → List Text
unfolding differing sorted list_files is_generated stale flat_map keep
failures files directory =
    differing (sorted (paths files)) (keep is_generated (list_files directory))
    ++ flat_map (stale directory) files

unfoldable pub conclude : List Text → Result (Unit {0})
unfolding join
conclude [] = ok tt
conclude (f ∷ fs) = err (error (join (lit "\n") (f ∷ fs)))

unfoldable pub check_generated : FileList → FileList → Result (Unit {0})
unfolding conclude failures
check_generated files directory = conclude (failures files directory)
