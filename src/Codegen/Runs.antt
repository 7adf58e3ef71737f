-- ===== src/Codegen/Runs.antt =====
-- tools/schema-orm-codegen.mjs, `main`: what a run that ends without an error has done.
use cliptown_lib_core.Prelude.{◌≡◌, ◌⊎◌, true, false, some, ok}
use cliptown_lib_core.Text.{Text}
use cliptown_lib_core.Schema.{Model}
use cliptown_lib_core.Json.{Json}
use cliptown_lib_core.Codegen.Files.{FileList, check_generated, write_generated}
use cliptown_lib_core.Codegen.{Platform, Args, generate_files, summary}

-- What the run did with the directory.
abbrev pub Outcome : Args → FileList → FileList → FileList → Type 0
Outcome args files before after =
    ((args.check ≡ true) × (check_generated files before ≡ ok tt) × (after ≡ before))
    ⊎ ((args.check ≡ false) × (after ≡ write_generated files before))

-- What a run of `main` behind the help text has done: the output path resolves to the `generated`
-- directory, the files are those of the document that the file at the schema's path holds, and the
-- line tells how many entities it has.
abbrev pub HasRun : Platform → Text → Args → FileList → FileList → Text → Type 0
HasRun p generated_root args before after line =
    (path : Text) × (out : Text) × (schema : Json) × (model : Model) × (files : FileList)
    × (args.schema ≡ some path)
    × (args.out ≡ some out)
    × (p.resolve out ≡ generated_root)
    × (p.parse_file (p.resolve path) ≡ ok schema)
    × (generate_files p schema ≡ ok (model, files))
    × (line ≡ summary args.check model)
    × Outcome args files before after
