-- ===== src/Embeddings/Migration.antt =====
-- scripts/embeddings/generate.mjs, `migration`; the two parts of the schema are arguments.
pub mod Widen
pub mod Constraints
use cliptown_lib_core.Prelude.{◌+◌, ◌∷◌, List, ◌++◌, if◌then◌else◌, []}
use cliptown_lib_core.Text.{Text, is_space, lit, trim_end}
use cliptown_lib_core.Embeddings.{Setup, banner, ns, p, qualified, w}
use cliptown_lib_core.Embeddings.Spelling.{unlines}
use cliptown_lib_core.Embeddings.Migration.Constraints.{widen_existing}

-- `MIGRATION_VERSION`.
abbrev pub migration_version : Text
migration_version = lit "20260829T120000"

unfoldable pub trim_start : Text → Text
unfolding is_space
trim_start [] = []
trim_start (c ∷ s) = if is_space c then trim_start s else c ∷ s

-- `text.trim()`.
unfoldable pub trim : Text → Text
unfolding trim_start trim_end
trim s = trim_end (trim_start s)

unfoldable pub migration_opening : Setup → List Text
migration_opening s =
    banner s (
      lit "Forward migration to embedding contract "
      ++ s.contract.contract_version
      ++ lit " for "
      ++ qualified s
      ++ lit ".")
    ∷ (lit "-- Migration version: " ++ migration_version)
    ∷ lit "-- Applied by:        dpm  (declarative-migrations/declarative-postgres-migrate.rs)"
    ∷ lit "-- Apply requires human review. Services never run DDL at boot."
    ∷ lit "--"
    ∷ lit "-- What this migration does:"
    ∷ (lit "--   * widens the stored embedding to the canonical "
        ++ w s
        ++ lit " slot, zero-padded")
    ∷ lit "--   * adds the model registry and points every row at a registry entry"
    ∷ (lit "--   * replaces the ANN index - which cannot exist on a "
        ++ w s
        ++ lit "-wide vector column -")
    ∷ lit "--     with the bit and prefix candidate surfaces plus exact rerank"
    ∷ lit "--   * adds weighted tsvector full-text alongside the vector, so retrieval is"
    ∷ lit "--     hybrid rather than vector-only"
    ∷ []
    ∷ lit "begin;"
    ∷ []
    ∷ (lit "set local search_path = " ++ ns s ++ lit ", extensions, public;")
    ∷ []
    ∷ lit "create extension if not exists pgcrypto with schema extensions;"
    ∷ []
    ∷ lit "-- ---------------------------------------------------------------------"
    ∷ lit "-- Registry and helper functions first. The data steps below call emb_pad()"
    ∷ lit "-- and join embedding_models, so these have to exist before the rows are"
    ∷ lit "-- rewritten. This text is the first half of"
    ∷ (lit "-- db/schema/postgres/0100_"
        ++ p s
        ++ lit "_embeddings.sql, emitted from the same source, so")
    ∷ lit "-- the two files cannot drift."
    ∷ lit "-- ---------------------------------------------------------------------"
    ∷ []

unfoldable pub migration_steps : (part_a part_b : Text) → Setup → List Text
migration_steps part_a part_b s =
    trim part_a ∷ widen_existing s ∷ trim part_b ∷ [] ∷ lit "commit;" ∷ []

-- `migration`.
unfoldable pub migration : (part_a part_b : Text) → Setup → Text
unfolding unlines migration_opening migration_steps
migration part_a part_b s = unlines (migration_opening s ++ migration_steps part_a part_b s)
