-- ===== src/Embeddings/Removed.antt =====
-- tools/schema-orm-codegen.mjs and scripts/embeddings/generate.mjs over the same `generated` directory.
use cliptown_lib_core.Prelude.{
  ◌≡◌, refl, ◌≢◌, sym, ◌∙◌, true, [], ◌∷◌, ◌++◌, map, Option, none, some, All, All-append, ok, any,
  map-append,
}
use cliptown_lib_core.Text.{Text, lit, text_eq, is_one_of, join}
use cliptown_lib_core.Text.Equality.{not_one_of}
use cliptown_lib_core.Json.{Json}
use cliptown_lib_core.Schema.{Model}
use cliptown_lib_core.Sql.{lookup}
use cliptown_lib_core.Codegen.{Platform, generate_files}
use cliptown_lib_core.Codegen.Files.{FileList, paths, kept, policy_readme, write_generated}
use cliptown_lib_core.Json.Stringify.{is_high, is_low, starts_low}
use cliptown_lib_core.Codegen.Storage.{
  resolve_path, walk, enter, climb, segments, segments_from, stored, stored_from,
}
use cliptown_lib_core.Codegen.Checked.{paths-kept, policy_file, write_generated-eq}
use cliptown_lib_core.Codegen.Outputs.{all_paths, generate_files_lem, generate_files-IsOutput}
use cliptown_lib_core.Embeddings.{Setup}
use cliptown_lib_core.Embeddings.Outputs.{Run, generate, outputs_with, setup_outputs}
use cliptown_lib_core.Embeddings.TypeScript.{ts}
use cliptown_lib_core.Embeddings.Split.{pg_parts_total}
use cliptown_lib_core.Embeddings.Runs.{generate-check, text_eq-differs}

-- An output of the embedding generator, from the root of the repository.
abbrev pub ts_path : Text
ts_path = lit "generated/typescript/embeddings.ts"

-- The files of the directory `generated`, from the root of the repository.
unfoldable pub under_generated : FileList → FileList
under_generated directory = map (λ f. (lit "generated/" ++ f.0, f.1)) directory

none-some : (a : Text) → none ≢ some a
none-some a e = cc

lookup-none :
    (key : Text) (directory : FileList)
    → All (λ t. key ≢ t) (paths directory)
    → lookup key directory ≡ none
unfolding lookup
lookup-none key [] h = refl
lookup-none key ((q, c) ∷ rest) h =
    rw (text_eq-differs q key (λ e. h.0 (sym e))) (lookup-none key rest h.1)

under_generated-All :
    (key : Text) (directory : FileList)
    → All (λ t. key ≢ lit "generated/" ++ t) (paths directory)
    → All (λ t. key ≢ t) (paths (under_generated directory))
unfolding under_generated
under_generated-All key [] h = tt
under_generated-All key (f ∷ rest) h = (h.0, under_generated-All key rest h.1)

all_paths-other : All (λ t. ts_path ≢ lit "generated/" ++ t) all_paths
unfolding is_one_of any text_eq lit
all_paths-other = not_one_of ts_path (map (λ t. lit "generated/" ++ t) all_paths) refl

ts_path-resolved : resolve_path ts_path ≡ ts_path
unfolding resolve_path walk enter climb segments segments_from stored stored_from is_high is_low
    starts_low join is_one_of any text_eq lit
ts_path-resolved = refl

readme-other : ts_path ≢ lit "generated/" ++ policy_readme
unfolding is_one_of any text_eq lit
readme-other = (not_one_of ts_path ((lit "generated/" ++ policy_readme) ∷ []) refl).0

policy_file-other :
    (o : Option Text) → All (λ t. ts_path ≢ lit "generated/" ++ t) (paths (policy_file o))
policy_file-other none = tt
policy_file-other (some content) = (readme-other, tt)

-- No file of what the schema command leaves is the output.
written-other :
    (p : Platform) (schema : Json) (model : Model) (files directory : FileList)
    → generate_files p schema ≡ ok (model, files)
    → All (λ t. ts_path ≢ t) (paths (under_generated (write_generated files directory)))
written-other p schema model files directory h =
    let other = λ (t : Text). ts_path ≢ lit "generated/" ++ t in
    let same : paths files ≡ all_paths = (generate_files_lem p schema).at (model, files) h in
    let old = policy_file (lookup policy_readme directory) in
    let here : All other (paths files) = rw same all_paths-other in
    let both : All other (paths (kept files ++ old)) =
      rw (map-append, paths-kept files)
        (All-append other (paths files) (paths old) here
          (policy_file-other (lookup policy_readme directory))) in
    under_generated-All ts_path (write_generated files directory) (
      rw (write_generated-eq files directory (generate_files-IsOutput p schema model files h)) both)

-- Once the schema command has written the directory `generated`, the check of the embedding generator
-- fails, whatever stands outside the directory: the command has removed an output that lies in it.
pub generate-write_generated :
    (p : Platform) (schema : Json) (model : Model) (files directory others : FileList) (s : Setup)
    → generate_files p schema ≡ ok (model, files)
    → All (λ t. ts_path ≢ t) (paths others)
    → (run : Run) × (generate true s (others ++ under_generated (write_generated files directory))
        ≡ ok run)
      × (run.exit_code ≢ 0)
unfolding setup_outputs outputs_with
generate-write_generated p schema model files directory others s h outside =
    let written = under_generated (write_generated files directory) in
    let absent : lookup ts_path (others ++ written) ≡ none =
      lookup-none ts_path (others ++ written) (
        rw map-append (
          All-append (λ t. ts_path ≢ t) (paths others) (paths written) outside
            (written-other p schema model files directory h))) in
    let (parts, e) = pg_parts_total s in
    let (run, done, kept, code) =
      generate-check s (others ++ written) (outputs_with s parts) (rw e refl) in
    let absent' : lookup (resolve_path ts_path) (others ++ written) ≡ none =
      rw ts_path-resolved absent in
    (run, done, λ clean. none-some (ts s) (sym absent' ∙ (code.0 clean).1.1.1.1.1.1.1.1.0))
