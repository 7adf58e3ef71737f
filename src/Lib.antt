-- ===== src/Lib.antt =====
-- The program code of this repository: the schema tooling (`tools/schema-orm-codegen.mjs` and
-- `tools/schema-orm/`), the generator of the embedding contracts, the verifiers of the contracts and of
-- the desired SQL (`scripts/`), the vendored lint rules and their formatter (`.ores-lint/eslint/`), and
-- the lock names (`locks/typescript/`).
--
-- The schema command reads a JSON Schema with `x-db` keywords, normalises it to a model of tables, prints
-- the model as SQL and as the definitions of eight object mappers and four shared libraries, and
-- writes the files into `generated`, or with `--check` compares them with what is there.
--
-- Which file models what:
--   Text, Text/*      JavaScript strings as lists of UTF-16 code units, with the string methods
--                     and regular expressions that the tools use
--   Json, Json/*      documents as `JSON.parse` returns them, `JSON.stringify`, and `stableStringify`
--                     of tools/schema-orm/core.mjs (Json/Canonical)
--   Names, Names/*    `snakeCase`, `pascalCase`, `camelCase`, `pluralize`, `rustName`, `tsName`,
--                     `goName`, `dartName` of core.mjs
--   SqlGuard, */*     `assertIdentifier`, `assertSqlType`, `assertSqlExpression` of core.mjs; the
--                     guard's loop is SqlGuard/Scan, the grammar that it is measured by
--                     SqlGuard/Grammar
--   Schema, Schema/*  `normalizeSchema` of core.mjs; its objects are the records of Schema
--   Topology, */*     `topologicalEntities` of core.mjs
--   Sql, Sql/*        tools/schema-orm/sql.mjs
--   Targets, */*      tools/schema-orm/rust.mjs, node.mjs (Drizzle, Prisma, TypeOrm), go-dart.mjs
--                     (Gorm, Drift), ent-stormberry.mjs (Ent, Stormberry), shared.mjs (Shared)
--   Codegen, */*      tools/schema-orm-codegen.mjs; the generated directory is Codegen/Files,
--                     what UTF-8 and path resolution make of texts and paths Codegen/Storage
--   Lint, Lint/*      .ores-lint/eslint/formatter.mjs (Lint; its counts are Counting, Capped and
--                     Counts) and plugin.mjs: reading names and call chains (Chains), `requireSendRule` (RequireSend), `semiRule` (Semi)
--   Embeddings, */*   scripts/embeddings/generate.mjs: each template is the list of the lines that it
--                     prints, in definitions named for the part of the text (Postgres, Cockroach,
--                     Migration, Queries, JsonSchema, TypeSpec, Rust, TypeScript, Dart, Docs,
--                     ContractTest); the files and the run are Outputs. Cuts is on what is found in
--                     a text; Split, Drift, Runs and Wrapping hold the theorems, and Removed
--                     the one on the directory that both generators write
--   Locks, Locks/*    locks/typescript/src/index.ts and dist/index.js
--   Contracts, */*    scripts/verify-embedding-contract.mjs and, in Contracts/ModelSpace,
--                     scripts/verify-embedding-contract-v3.mjs
--   DesiredSql, */*   scripts/verify-desired-sql-v3.mjs: its regular expressions are Patterns, its files
--                     and messages Report
--   Prelude, */*      lists, tests, and what a function returns or throws (`Result`)
--   Examples, */*     the theorems at concrete inputs
--
-- A function that may throw returns a `Result`: `error` carries the message of `fail`, `type_error`
-- stands for a TypeError of the engine, and `outside` for a document with a value of a type that
-- the model does not follow (a column that is no string, which the code accepts where its text is an
-- identifier, for example). Arrays of lines are lists
-- of texts. A file system is the list of its files, each with its path and the text that is read back
-- from it: a surrogate without its other half is read back as U+FFFD. The paths of the schema command
-- are plain; those of the embedding generator are resolved first. Every write succeeds.
-- `Platform` names what the schema command calls outside this repository: the hash, `localeCompare`,
-- the program `gofmt`, reading files, and the resolution of paths; nothing is assumed of them.
--
-- The loop of `topologicalEntities` runs on fuel, as many rounds as there are entities; a round
-- places at least one. The digits of a number n are computed with fuel n + 1.
--
-- The generator of the embedding contracts starts at the two JSON documents as records of the members
-- that it reads; their hashes are arguments. A rule of the lint plugin takes the nodes that it is called
-- for as a list, each with what the rule reads of it. `lockKey` and `plan` are parameters.
--
-- Not modelled: the configuration of the lint run, tests, vendored packages, generated files, and the
-- code in other languages. Case mapping is that of the ASCII
-- letters, which names, keywords and actions are written in. Directories are not modelled apart
-- from the files in them, and the console output is the line that `main` returns.
pub mod Prelude
pub mod Text
pub mod Names
pub mod Json
pub mod SqlGuard
pub mod Schema
pub mod Topology
pub mod Sql
pub mod Targets
pub mod Codegen
pub mod Lint
pub mod Contracts
pub mod Locks
pub mod Examples
pub mod Embeddings
pub mod DesiredSql
