-- ===== src/Codegen.antt =====
-- tools/schema-orm-codegen.mjs: the generated files, the directory that holds them, and the command.
pub mod Storage
pub mod Files
pub mod Runs
pub mod Sorting
pub mod Checked
pub mod Outputs
use cliptown_lib_core.Prelude.{
  ℕ, Bool, true, false, not, ◌||◌, List, [], ◌∷◌, ◌++◌, map, Option, none, some, if◌then◌else◌,
  Result, ok, err, error, type_error, ◌>>=◌, ◌>>◌, require, traverse, length,
}
use cliptown_lib_core.Text.{Text, lit, text_eq, join, concat, digits}
use cliptown_lib_core.Json.{
  Json, null, str, num, obj, plus, Members, member, end, text_array, read, read?,
}
use cliptown_lib_core.Json.Canonical.{stable_stringify}
use cliptown_lib_core.Schema.{Model}
use cliptown_lib_core.Schema.Normalize.{normalize_schema, names}
use cliptown_lib_core.Sql.{postgres, sqlite}
use cliptown_lib_core.Sql.Columns.{generate_sql}
use cliptown_lib_core.Targets.Rust.{generate_rust_sea_orm}
use cliptown_lib_core.Targets.Drizzle.{generate_drizzle}
use cliptown_lib_core.Targets.Prisma.{generate_prisma}
use cliptown_lib_core.Targets.TypeOrm.{generate_type_orm}
use cliptown_lib_core.Targets.Gorm.{generate_gorm}
use cliptown_lib_core.Targets.Drift.{generate_drift}
use cliptown_lib_core.Targets.Ent.{generate_ent}
use cliptown_lib_core.Targets.Stormberry.{generate_stormberry}
use cliptown_lib_core.Targets.Shared.{
  generate_shared_ts, generate_shared_rust, generate_shared_go, generate_shared_dart,
}
use cliptown_lib_core.Codegen.Files.{FileList, check_generated, write_generated}

-- `GENERATOR_FILES`.
abbrev pub generator_files : List Text
generator_files =
    lit "tools/schema-orm-codegen.mjs"
    ∷ lit "tools/schema-orm/core.mjs"
    ∷ lit "tools/schema-orm/ent-stormberry.mjs"
    ∷ lit "tools/schema-orm/go-dart.mjs"
    ∷ lit "tools/schema-orm/node.mjs"
    ∷ lit "tools/schema-orm/rust.mjs"
    ∷ lit "tools/schema-orm/shared.mjs"
    ∷ lit "tools/schema-orm/sql.mjs"
    ∷ []

-- What the program calls outside this repository: the hash, the order of `localeCompare`, the
-- program `gofmt`, reading a file of the repository, and the resolution of a path.
pub record Platform : Type 0 where
  pub sha256 : Text → Text
  pub before : Text → Text → Bool
  pub gofmt : Text → Result Text
  pub read_file : Text → Result Text
  pub parse_file : Text → Result Json
  pub resolve : Text → Text

unfoldable pub framed : Platform → Text → Result Text
framed platform path = do content ← platform.read_file path; ok (path ++ 0 ∷ content)

unfoldable pub generator_sha256 : Platform → Result Text
generator_sha256 platform = do
  frames ← traverse (framed platform) generator_files
  ok (platform.sha256 (join (0 ∷ []) frames))

-- The array from which `generateFiles` builds its map of files.
unfoldable pub outputs : Platform → Model → Result FileList
outputs platform model = do
  postgres_sql ← generate_sql platform.before model postgres
  sqlite_sql ← generate_sql platform.before model sqlite
  rust ← generate_rust_sea_orm model
  drizzle ← generate_drizzle platform.before model
  prisma ← generate_prisma model
  type_orm ← generate_type_orm model
  gorm ← generate_gorm platform.gofmt model
  ent ← generate_ent platform.gofmt model
  drift ← generate_drift model
  stormberry ← generate_stormberry model
  shared_go ← generate_shared_go platform.gofmt model
  ok (
      (lit "sql/postgres.sql", postgres_sql)
      ∷ (lit "sql/sqlite.sql", sqlite_sql)
      ∷ (lit "rust/sea-orm/entities.rs", rust)
      ∷ (lit "node/drizzle/schema.ts", drizzle)
      ∷ (lit "node/prisma/schema.prisma", prisma)
      ∷ (lit "node/typeorm/entities.ts", type_orm)
      ∷ (lit "go/gorm/models.go", gorm)
      ∷ (lit "go/ent/schema/entities.go", ent)
      ∷ (lit "dart/drift/tables.dart", drift)
      ∷ (lit "dart/stormberry/models.dart", stormberry)
      ∷ (lit "shared/typescript/entity-descriptors.ts", generate_shared_ts model)
      ∷ (lit "shared/rust/entity_descriptors.rs", generate_shared_rust model)
      ∷ (lit "shared/go/entity_descriptors.go", shared_go)
      ∷ (lit "shared/dart/entity_descriptors.dart", generate_shared_dart model)
      ∷ [])

unfoldable pub hashes : Platform → FileList → Members
hashes platform [] = end
hashes platform ((path, content) ∷ rest) =
    member path (str (platform.sha256 content)) (hashes platform rest)

-- A member that `JSON.stringify` leaves out where its value is `undefined`.
unfoldable pub optional_member : Text → Option Json → Members → Members
optional_member key none rest = rest
optional_member key (some value) rest = member key value rest

-- `value ?? null`.
unfoldable pub or_null : Option Json → Json
or_null none = null
or_null (some value) = value

unfoldable pub manifest : Platform → Model → Text → FileList → Members
manifest platform model generator files =
    member (lit "generator") (str (lit "tools/schema-orm-codegen.mjs")) (
      member (lit "generatorVersion") (num (plus 3)) (
        member (lit "generatorFiles") (text_array generator_files) (
          member (lit "generatorSha256") (str generator) (
            optional_member (lit "schemaDialect") (read? (lit "$schema") (some model.schema)) (
              member (lit "schemaId") (or_null (read? (lit "$id") (some model.schema))) (
                member (lit "schemaSha256") (str (platform.sha256 (stable_stringify model.schema)))
                  (member (lit "product") (str model.product) (
                    optional_member (lit "interfaces") model.interfaces (
                      member (lit "entityCount") (num (plus (length model.entities))) (
                        member (lit "entityNames") (text_array (names model.entities))
                          (member (lit "outputs") (obj (hashes platform files)) end)))))))))))

unfoldable pub generate_files : Platform → Json → Result (Model × FileList)
generate_files platform schema = do
  model ← normalize_schema schema
  files ← outputs platform model
  generator ← generator_sha256 platform
  ok (
    model,
    files
        ++ (lit "manifest.json", stable_stringify (obj (manifest platform model generator files)))
          ∷ [],
  )

-- `assertOutputRoot`, for the resolved path of `generated`.
unfoldable pub assert_output_root : Platform → Text → Text → Result Text
assert_output_root platform generated_root value = do
  require (text_eq (platform.resolve value) generated_root)
      (lit "refusing to delete or generate outside " ++ generated_root)
  ok (platform.resolve value)

-- The arguments of the command. A path is `none` where the command line ends behind its flag.
pub record Args : Type 0 where
  pub schema : Option Text
  pub out : Option Text
  pub check : Bool
  pub help : Bool

-- The loop of `parseArgs`.
unfoldable pub parse_from : Args → List Text → Result Args
parse_from args [] = ok args
parse_from args (arg ∷ []) =
    if text_eq arg (lit "--check")
    then ok (record { schema = args.schema; out = args.out; check = true; help = args.help })
    else if text_eq arg (lit "--schema")
    then ok (record { schema = none; out = args.out; check = args.check; help = args.help })
    else if text_eq arg (lit "--out")
    then ok (record { schema = args.schema; out = none; check = args.check; help = args.help })
    else if text_eq arg (lit "--help") || text_eq arg (lit "-h")
    then ok (record { schema = args.schema; out = args.out; check = args.check; help = true })
    else err (error (lit "unknown argument: " ++ arg))
parse_from args (arg ∷ next ∷ rest) =
    if text_eq arg (lit "--check")
    then parse_from
        (record { schema = args.schema; out = args.out; check = true; help = args.help })
        (next ∷ rest)
    else if text_eq arg (lit "--schema")
    then parse_from
        (record { schema = some next; out = args.out; check = args.check; help = args.help }) rest
    else if text_eq arg (lit "--out")
    then parse_from
        (record { schema = args.schema; out = some next; check = args.check; help = args.help })
        rest
    else if text_eq arg (lit "--help") || text_eq arg (lit "-h")
    then parse_from
        (record { schema = args.schema; out = args.out; check = args.check; help = true })
        (next ∷ rest)
    else err (error (lit "unknown argument: " ++ arg))

unfoldable pub parse_args : (default_schema generated_root : Text) → List Text → Result Args
parse_args default_schema generated_root argv =
    parse_from
      (record {
        schema = some default_schema;
        out = some generated_root;
        check = false;
        help = false;
      })
      argv

-- `resolve(value)` of a value that may be `undefined`.
unfoldable pub given : Option Text → Result Text
given none = err type_error
given (some value) = ok value

-- `checkGenerated` or `writeGenerated`.
unfoldable pub place : Bool → FileList → FileList → Result FileList
place check files directory =
    if check
    then (check_generated files directory >> ok directory)
    else ok (write_generated files directory)

-- The printed line.
unfoldable pub summary : Bool → Model → Text
unfolding concat digits lit
summary check model = concat (
    (if check then lit "verified" else lit "generated")
    ∷ lit " "
    ∷ digits (length model.entities)
    ∷ lit " entities for "
    ∷ model.product
    ∷ [])

-- The part of `main` behind the help text: the directory after it, and the printed line.
unfoldable pub run : Platform → (generated_root : Text) → Args → FileList → Result (FileList × Text)
run platform generated_root args directory = do
  schema_path ← given args.schema
  out ← given args.out
  root ← assert_output_root platform generated_root out
  schema ← platform.parse_file (platform.resolve schema_path)
  generated ← generate_files platform schema
  directory' ← place args.check generated.1 directory
  ok (directory', summary args.check generated.0)

abbrev pub usage : Text
usage = lit "Usage: node tools/schema-orm-codegen.mjs [--schema path] [--out path] [--check]"

-- `main` behind `parseArgs`.
unfoldable pub dispatch :
    Platform → (generated_root : Text) → FileList → Args → Result (FileList × Text)
dispatch platform generated_root directory args =
    if args.help then ok (directory, usage) else run platform generated_root args directory

unfoldable pub main :
    Platform
    → (default_schema generated_root : Text) → List Text
    → FileList
    → Result (FileList × Text)
main platform default_schema generated_root argv directory = do
  args ← parse_args default_schema generated_root argv
  dispatch platform generated_root directory args
