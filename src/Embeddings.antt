-- ===== src/Embeddings.antt =====
-- scripts/embeddings/generate.mjs: the two documents that the generator reads, and the names and
-- helpers that its templates share. A template is modelled by the lines that it prints, in
-- definitions named for the part of the text.
pub mod Postgres
pub mod Cockroach
pub mod Migration
pub mod Queries
pub mod TypeSpec
pub mod Rust
pub mod TypeScript
pub mod Dart
pub mod Docs
pub mod ContractTest
pub mod Outputs
pub mod Cuts
pub mod Split
pub mod Runs
pub mod Drift
pub mod Wrapping
pub mod Removed
pub mod JsonSchema
pub mod Spelling
use cliptown_lib_core.Prelude.{
  ℕ, zero, suc, ◌+◌, ◌-◌, ◌*◌, Bool, true, false, not, ◌&&◌, ◌||◌, List, [], ◌∷◌, ◌++◌, map, Option,
  none, some, ltb, ◌==◌, if◌then◌else◌, length, keep,
}
use cliptown_lib_core.Text.{
  Text, lit, text_eq, is_one_of, join, concat, replace_all, digits, is_blank, is_alnum, is_lower,
  is_digit, upper_char, starts_with,
}
use cliptown_lib_core.Json.{Number}
use cliptown_lib_core.Json.Stringify.{number_text, bool_text}
use cliptown_lib_core.Json.Canonical.{text_less, insertion_sort}
use cliptown_lib_core.Embeddings.Spelling.{
  quoted, sql_list, spaces, wrap_lines, indent_rest, wrap_list, unlines, difference, gap, ending,
  camel_from, camel, is_small, pascal_from, pascal, without_s,
}

-- An entry of `models` in db/embedding-contract.json.
pub record EmbeddingModel : Type 0 where
  pub key : Text
  pub provider : Text
  pub model_name : Text
  pub model_version : Text
  pub native_dims : ℕ
  pub mrl : Bool
  pub normalized_by_provider : Bool
  pub family : Text
  pub notes : Text

-- db/embedding-contract.json, the members that the generator reads.
pub record Contract : Type 0 where
  pub contract : Text
  pub contract_version : Text
  pub canonical_dimensions : ℕ
  pub norm_tolerance : Number
  pub fusion_k : Number
  pub default_candidate_count : Number
  pub default_result_count : Number
  pub pgvector : Text
  pub postgres : Text
  pub cockroachdb : Text
  pub models : List EmbeddingModel

pub record ExtraColumn : Type 0 where
  pub name : Text
  pub sql : Text
  pub not_null : Bool
  pub note : Option Text

-- db/org-manifest.json, the members that the generator reads; `none` is an absent member.
pub record Manifest : Type 0 where
  pub github_org : Text
  pub pg_schema : Text
  pub table : Text
  pub tenant_column : Text
  pub prefix : Text
  pub purpose : Text
  pub entity_kinds : List Text
  pub extra_columns : List ExtraColumn
  pub existing_table : Bool
  pub existing_dims : Option ℕ
  pub dedupe_is_primary : Bool

-- `C`, `M`, `CONTRACT_SHA` and `MANIFEST_SHA`.
pub record Setup : Type 0 where
  pub contract : Contract
  pub manifest : Manifest
  pub contract_sha : Text
  pub manifest_sha : Text

-- `W`, as a number and as it is printed.
abbrev pub width : Setup → ℕ
width s = s.contract.canonical_dimensions

unfoldable pub w : Setup → Text
unfolding digits
w s = digits (width s)

-- `PREFIX_DIMS`.
abbrev pub prefix_dims : Text
prefix_dims = lit "1024"

-- `TOL`.
unfoldable pub tol : Setup → Text
unfolding number_text
tol s = number_text s.contract.norm_tolerance

-- `RRF_K`.
unfoldable pub rrf_k : Setup → Text
unfolding number_text
rrf_k s = number_text s.contract.fusion_k

unfoldable pub candidate_count : Setup → Text
unfolding number_text
candidate_count s = number_text s.contract.default_candidate_count

unfoldable pub result_count : Setup → Text
unfolding number_text
result_count s = number_text s.contract.default_result_count

abbrev pub ns : Setup → Text
ns s = s.manifest.pg_schema

abbrev pub tbl : Setup → Text
tbl s = s.manifest.table

-- `T`.
unfoldable pub qualified : Setup → Text
unfolding lit
qualified s = ns s ++ lit "." ++ tbl s

abbrev pub tenant : Setup → Text
tenant s = s.manifest.tenant_column

abbrev pub p : Setup → Text
p s = s.manifest.prefix

abbrev pub kinds : Setup → List Text
kinds s = s.manifest.entity_kinds

abbrev pub models : Setup → List EmbeddingModel
models s = s.contract.models

abbrev pub extra : Setup → List ExtraColumn
extra s = s.manifest.extra_columns

-- `[...new Set(texts)]`; the first list holds what stands already.
unfoldable pub new_texts : List Text → List Text → List Text
unfolding is_one_of
new_texts seen [] = []
new_texts seen (t ∷ ts) =
    let known = is_one_of t seen in
    let rest = new_texts (if known then seen else t ∷ seen) ts in if known then rest else t ∷ rest

unfoldable pub providers : Setup → List Text
unfolding new_texts insertion_sort text_less
providers s = insertion_sort text_less (new_texts [] (map (λ m. m.provider) (models s)))

-- `${M.existingDims}`.
unfoldable pub dims_text : Option ℕ → Text
unfolding digits lit
dims_text none = lit "undefined"
dims_text (some n) = digits n

unfoldable pub existing_dims : Setup → Text
unfolding dims_text
existing_dims s = dims_text s.manifest.existing_dims

unfoldable pub tenant_camel : Setup → Text
unfolding camel
tenant_camel s = camel (tenant s)

-- `EntityName`.
unfoldable pub entity_name : Setup → Text
unfolding pascal without_s
entity_name s = without_s (pascal (tbl s))

-- `M.githubOrg.replace(/[^A-Za-z0-9]/g, '_')`.
unfoldable pub plain_org : Setup → Text
unfolding is_alnum
plain_org s = map (λ c. if is_alnum c then c else b'_') s.manifest.github_org

-- `c.sql.startsWith('timestamptz')`.
unfoldable pub is_timestamp : ExtraColumn → Bool
unfolding starts_with lit
is_timestamp c = starts_with c.sql (lit "timestamptz")

-- `banner`.
unfoldable pub banner : Setup → Text → Text
unfolding unlines lit
banner s what = unlines (
    lit "-- GENERATED FILE - do not edit by hand."
    ∷ (lit "-- " ++ what)
    ∷ lit "-- Regenerate:  node scripts/embeddings/generate.mjs"
    ∷ lit "-- CI gate:     node scripts/embeddings/generate.mjs --check"
    ∷ lit "--"
    ∷ (lit "-- Contract:    " ++ s.contract.contract ++ lit " " ++ s.contract.contract_version)
    ∷ (lit "-- Contract sha256: " ++ s.contract_sha)
    ∷ (lit "-- Manifest sha256: " ++ s.manifest_sha)
    ∷ (lit "-- Owning GitHub org: " ++ s.manifest.github_org)
    ∷ lit "--"
    ∷ lit "-- This schema is owned by this repository. It is NOT assembled from"
    ∷ lit "-- ORESoftware/k8s-libs-and-shared-defs; the org that owns the data owns the"
    ∷ lit "-- DDL and the migrations that produce it. dpm is the only tool that applies"
    ∷ lit "-- either, and apply requires human review."
    ∷ [])
