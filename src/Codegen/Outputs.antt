-- ===== src/Codegen/Outputs.antt =====
-- tools/schema-orm-codegen.mjs, `generateFiles`: the paths of the generated files.
use cliptown_lib_core.Prelude.{
  ◌≡◌, refl, ◌∙◌, ap, true, List, [], ◌∷◌, ◌++◌, all, all_sound, ok, map-append, any,
}
use cliptown_lib_core.Prelude.Outcomes.{Ensures, Ensures-ok, Ensures-step, Ensures-bind}
use cliptown_lib_core.Text.{Text, lit, text_eq, is_one_of, starts_with}
use cliptown_lib_core.Json.{Json}
use cliptown_lib_core.Schema.{Model}
use cliptown_lib_core.Schema.Entities.{distinct}
use cliptown_lib_core.Schema.WellFormed.Entities.{distinct-Distinct}
use cliptown_lib_core.Schema.Normalize.{normalize_schema}
use cliptown_lib_core.Codegen.Storage.{
  are_plain, is_plain_segment, segments, segments_from, lies_below,
}
use cliptown_lib_core.Codegen.Files.{
  FileList, paths, policy_readme, is_generated, check_generated, write_generated,
}
use cliptown_lib_core.Codegen.Checked.{IsOutput, AreStored, check_generated-write_generated}
use cliptown_lib_core.Sql.{postgres, sqlite}
use cliptown_lib_core.Sql.Columns.{generate_sql}
use cliptown_lib_core.Targets.Rust.{generate_rust_sea_orm}
use cliptown_lib_core.Targets.Drizzle.{generate_drizzle}
use cliptown_lib_core.Targets.Prisma.{generate_prisma}
use cliptown_lib_core.Targets.TypeOrm.{generate_type_orm}
use cliptown_lib_core.Targets.Gorm.{generate_gorm}
use cliptown_lib_core.Targets.Drift.{generate_drift}
use cliptown_lib_core.Targets.Ent.{generate_ent}
use cliptown_lib_core.Targets.Stormberry.{generate_stormberry}
use cliptown_lib_core.Targets.Shared.{generate_shared_go}
use cliptown_lib_core.Codegen.{Platform, outputs, generate_files, generator_sha256}

-- The paths in the order of the array in `generateFiles`.
abbrev pub output_paths : List Text
output_paths =
    lit "sql/postgres.sql"
    ∷ lit "sql/sqlite.sql"
    ∷ lit "rust/sea-orm/entities.rs"
    ∷ lit "node/drizzle/schema.ts"
    ∷ lit "node/prisma/schema.prisma"
    ∷ lit "node/typeorm/entities.ts"
    ∷ lit "go/gorm/models.go"
    ∷ lit "go/ent/schema/entities.go"
    ∷ lit "dart/drift/tables.dart"
    ∷ lit "dart/stormberry/models.dart"
    ∷ lit "shared/typescript/entity-descriptors.ts"
    ∷ lit "shared/rust/entity_descriptors.rs"
    ∷ lit "shared/go/entity_descriptors.go"
    ∷ lit "shared/dart/entity_descriptors.dart"
    ∷ []

abbrev pub all_paths : List Text
all_paths = output_paths ++ lit "manifest.json" ∷ []

outputs_lem :
    (p : Platform) (m : Model) → Ensures (λ files. paths files ≡ output_paths) (outputs p m)
unfolding outputs
outputs_lem p m = Ensures-step (generate_sql p.before m postgres) _ λ _ _.
    Ensures-step (generate_sql p.before m sqlite) _ λ _ _.
      Ensures-step (generate_rust_sea_orm m) _ λ _ _.
        Ensures-step (generate_drizzle p.before m) _ λ _ _.
          Ensures-step (generate_prisma m) _ λ _ _. Ensures-step (generate_type_orm m) _ λ _ _.
            Ensures-step (generate_gorm p.gofmt m) _ λ _ _.
              Ensures-step (generate_ent p.gofmt m) _ λ _ _.
                Ensures-step (generate_drift m) _ λ _ _.
                  Ensures-step (generate_stormberry m) _
                    λ _ _. Ensures-step (generate_shared_go p.gofmt m) _ λ _ _. Ensures-ok _ refl

pub generate_files_lem :
    (p : Platform) (schema : Json)
    → Ensures (λ (g : Model × FileList). paths g.1 ≡ all_paths) (generate_files p schema)
unfolding generate_files
generate_files_lem p schema = Ensures-step (normalize_schema schema) _ λ model _.
    Ensures-bind _ _ (outputs_lem p model) λ files same.
      Ensures-step (generator_sha256 p) _
        λ _ _. Ensures-ok _ (map-append _ files _ ∙ ap (λ ps. ps ++ lit "manifest.json" ∷ []) same)

all_paths-distinct : distinct all_paths ≡ true
unfolding distinct is_one_of any text_eq lit
all_paths-distinct = refl

all_paths-generated : all is_generated all_paths ≡ true
unfolding all is_generated text_eq lit
all_paths-generated = refl

all_paths-plain : are_plain (policy_readme ∷ all_paths) ≡ true
unfolding are_plain all is_plain_segment segments segments_from lies_below starts_with is_one_of any
    text_eq lit
all_paths-plain = refl

-- Whatever the schema, the paths of the generated files are all different, plain, and none of them
-- is the path of the policy file.
pub generate_files-IsOutput :
    (p : Platform) (schema : Json) (model : Model) (files : FileList)
    → generate_files p schema ≡ ok (model, files)
    → IsOutput files
generate_files-IsOutput p schema model files h =
    let same = (generate_files_lem p schema).at (model, files) h in
    rw same (
      distinct-Distinct all_paths all_paths-distinct,
      all_sound is_generated all_paths all_paths-generated,
      all_paths-plain,
    )

-- Where no surrogate stands without its other half in the files that `generateFiles` returns for a
-- schema, these files, once written by `writeGenerated` over any old directory, pass
-- `checkGenerated`.
pub check_generated-generate_files :
    (p : Platform) (schema : Json) (model : Model) (files directory : FileList)
    → generate_files p schema ≡ ok (model, files)
    → AreStored files
    → check_generated files (write_generated files directory) ≡ ok tt
check_generated-generate_files p schema model files directory h contents =
    check_generated-write_generated files directory (generate_files-IsOutput p schema model files h)
      contents
