-- ===== src/Embeddings/Rust/Entity.antt =====
-- scripts/embeddings/generate.mjs, `rust`: the entity and the registry.
use cliptown_lib_core.Prelude.{◌∷◌, List, ◌++◌, map, if◌then◌else◌, []}
use cliptown_lib_core.Text.{Text, digits, join, lit}
use cliptown_lib_core.Json.Stringify.{bool_text}
use cliptown_lib_core.Embeddings.{
  EmbeddingModel, ExtraColumn, Setup, extra, is_timestamp, kinds, models, ns, prefix_dims,
  qualified, tbl, tenant, tol, w,
}
use cliptown_lib_core.Embeddings.Spelling.{ending}

unfoldable pub rust_col_type : ExtraColumn → Text
rust_col_type c =
    if is_timestamp c
    then (if c.not_null then lit "DateTimeWithTimeZone" else lit "Option<DateTimeWithTimeZone>")
    else (if c.not_null then lit "Uuid" else lit "Option<Uuid>")

-- `rustExtra`.
unfoldable pub rust_extra : Setup → Text
rust_extra s =
    join (lit "\n")
      (map (λ c. lit "    pub " ++ c.name ++ lit ": " ++ rust_col_type c ++ lit ",") (extra s))

unfoldable pub rust_kinds : Setup → Text
rust_kinds s = join (lit "\n") (map (λ k. lit "    \"" ++ k ++ lit "\",") (kinds s))

unfoldable pub rust_row : EmbeddingModel → Text
rust_row m = join (lit "\n") (
    lit "    RegisteredModel {"
    ∷ (lit "        key: \"" ++ m.key ++ lit "\",")
    ∷ (lit "        provider: \"" ++ m.provider ++ lit "\",")
    ∷ (lit "        model_name: \"" ++ m.model_name ++ lit "\",")
    ∷ (lit "        model_version: \"" ++ m.model_version ++ lit "\",")
    ∷ (lit "        native_dims: " ++ digits m.native_dims ++ lit ",")
    ∷ (lit "        mrl: " ++ bool_text m.mrl ++ lit ",")
    ∷ (lit "        normalized_by_provider: " ++ bool_text m.normalized_by_provider ++ lit ",")
    ∷ (lit "        family: \"" ++ m.family ++ lit "\",")
    ∷ lit "    },"
    ∷ [])

unfoldable pub rust_rows : Setup → Text
rust_rows s = join (lit "\n") (map rust_row (models s))

unfoldable pub rust_opening : Setup → List Text
rust_opening s =
    lit "// GENERATED FILE - do not edit by hand."
    ∷ lit "// Regenerate: node scripts/embeddings/generate.mjs"
    ∷ (lit "// Contract: "
        ++ s.contract.contract
        ++ lit " "
        ++ s.contract.contract_version
        ++ lit " (sha256 "
        ++ s.contract_sha
        ++ lit ")")
    ∷ lit "//"
    ∷ (lit "// SeaORM entity for "
        ++ qualified s
        ++ lit ". SeaORM is the application ORM for this fleet; direct")
    ∷ lit "// sqlx and tokio-postgres are forbidden, and this crate never runs DDL - dpm"
    ∷ lit "// owns migrations and apply requires human review."
    ∷ lit "//"
    ∷ lit "// The three derived columns (embedding_bits, embedding_prefix, search_document)"
    ∷ lit "// are database-generated and therefore read-only here. Writing them is not a"
    ∷ lit "// missing feature; Postgres rejects it."
    ∷ []
    ∷ lit "use sea_orm::entity::prelude::*;"
    ∷ []
    ∷ lit "/// Canonical stored embedding width. Every vector written to this table is"
    ∷ lit "/// exactly this long: left-aligned to `native_dims`, zero past it, unit norm."
    ∷ (lit "pub const EMBEDDING_WIDTH: usize = " ++ w s ++ lit ";")
    ∷ []
    ∷ lit "/// Width of the Matryoshka prefix that carries the secondary ANN index."
    ∷ (lit "pub const EMBEDDING_PREFIX_WIDTH: usize = " ++ prefix_dims ++ lit ";")
    ∷ []
    ∷ lit "/// Tolerance on the unit-norm check, matching the SQL CHECK constraint."
    ∷ (lit "pub const NORM_TOLERANCE: f32 = " ++ tol s ++ lit ";")
    ∷ []
    ∷ []

unfoldable pub rust_columns : Setup → List Text
rust_columns s =
    lit "#[derive(Clone, Debug, PartialEq, DeriveEntityModel)]"
    ∷ (lit "#[sea_orm(schema_name = \"" ++ ns s ++ lit "\", table_name = \"" ++ tbl s ++ lit "\")]")
    ∷ lit "pub struct Model {"
    ∷ lit "    #[sea_orm(primary_key, auto_increment = false)]"
    ∷ lit "    pub id: Uuid,"
    ∷ (lit "    pub " ++ tenant s ++ lit ": Uuid,")
    ∷ []
    ∷ lit "    pub entity_kind: String,"
    ∷ lit "    pub entity_id: Uuid,"
    ∷ []
    ∷ lit "    pub model_key: String,"
    ∷ lit "    pub provider: String,"
    ∷ lit "    pub model_name: String,"
    ∷ lit "    pub model_version: String,"
    ∷ lit "    pub native_dims: i32,"
    ∷ lit "    pub mrl_prefix_valid: bool,"
    ∷ []
    ∷ (lit "    /// pgvector `vector(" ++ w s ++ lit ")`. Surfaced as `Vec<f32>` through the")
    ∷ lit "    /// `postgres-vector` feature; see `docs/embeddings.md` for the wiring."
    ∷ (lit "    #[sea_orm(column_type = \"custom(\\\"vector(" ++ w s ++ lit ")\\\")\")]")
    ∷ lit "    pub embedding: Vec<f32>,"
    ∷ []
    ∷ lit "    /// Generated by the database from `embedding`. Read-only."
    ∷ lit "    #[sea_orm(ignore)]"
    ∷ lit "    pub embedding_bits: Option<Vec<u8>>,"
    ∷ lit "    /// Generated by the database from `embedding`. Read-only."
    ∷ lit "    #[sea_orm(ignore)]"
    ∷ lit "    pub embedding_prefix: Option<Vec<f32>>,"
    ∷ []
    ∷ lit "    pub title_text: String,"
    ∷ lit "    pub summary_text: String,"
    ∷ lit "    pub body_text: String,"
    ∷ []
    ∷ lit "    pub content_sha256: String,"
    ∷ lit "    pub source_uri: Option<String>,"
    ∷ lit "    pub metadata: Json,"
    ∷ ending (rust_extra s)
    ∷ lit "    pub generated_at: DateTimeWithTimeZone,"
    ∷ lit "    pub created_at: DateTimeWithTimeZone,"
    ∷ lit "    pub updated_at: DateTimeWithTimeZone,"
    ∷ lit "}"
    ∷ []
    ∷ []

unfoldable pub rust_relations : Setup → List Text
rust_relations s =
    lit "#[derive(Copy, Clone, Debug, EnumIter, DeriveRelation)]"
    ∷ lit "pub enum Relation {"
    ∷ lit "    #[sea_orm("
    ∷ lit "        belongs_to = \"super::embedding_models::Entity\","
    ∷ lit "        from = \"Column::ModelKey\","
    ∷ lit "        to = \"super::embedding_models::Column::ModelKey\""
    ∷ lit "    )]"
    ∷ lit "    EmbeddingModel,"
    ∷ lit "}"
    ∷ []
    ∷ lit "impl Related<super::embedding_models::Entity> for Entity {"
    ∷ lit "    fn to() -> RelationDef {"
    ∷ lit "        Relation::EmbeddingModel.def()"
    ∷ lit "    }"
    ∷ lit "}"
    ∷ []
    ∷ lit "impl ActiveModelBehavior for ActiveModel {}"
    ∷ []
    ∷ lit "/// The entity kinds this table accepts, matching the SQL CHECK constraint."
    ∷ lit "pub const ENTITY_KINDS: &[&str] = &["
    ∷ rust_kinds s
    ∷ lit "];"
    ∷ []
    ∷ []

unfoldable pub rust_registry : Setup → List Text
rust_registry s =
    (lit "/// One registry entry, mirroring `" ++ ns s ++ lit ".embedding_models`.")
    ∷ lit "#[derive(Clone, Copy, Debug, PartialEq, Eq)]"
    ∷ lit "pub struct RegisteredModel {"
    ∷ lit "    pub key: &'static str,"
    ∷ lit "    pub provider: &'static str,"
    ∷ lit "    pub model_name: &'static str,"
    ∷ lit "    pub model_version: &'static str,"
    ∷ lit "    pub native_dims: usize,"
    ∷ lit "    pub mrl: bool,"
    ∷ lit "    pub normalized_by_provider: bool,"
    ∷ lit "    pub family: &'static str,"
    ∷ lit "}"
    ∷ []
    ∷ lit "impl RegisteredModel {"
    ∷ (lit "    /// Eligible for the `halfvec("
        ++ prefix_dims
        ++ lit ")` prefix index. A non-Matryoshka model is")
    ∷ lit "    /// never eligible: a prefix of it is an arbitrary coordinate subset, not an"
    ∷ lit "    /// approximation of the whole vector."
    ∷ lit "    pub const fn mrl_prefix_valid(&self) -> bool {"
    ∷ lit "        self.mrl && self.native_dims >= EMBEDDING_PREFIX_WIDTH"
    ∷ lit "    }"
    ∷ lit "}"
    ∷ []
    ∷ lit "pub const REGISTERED_MODELS: &[RegisteredModel] = &["
    ∷ rust_rows s
    ∷ lit "];"
    ∷ []
    ∷ lit "pub fn registered_model(key: &str) -> Option<&'static RegisteredModel> {"
    ∷ lit "    let mut i = 0;"
    ∷ lit "    while i < REGISTERED_MODELS.len() {"
    ∷ lit "        if REGISTERED_MODELS[i].key.as_bytes() == key.as_bytes() {"
    ∷ lit "            return Some(&REGISTERED_MODELS[i]);"
    ∷ lit "        }"
    ∷ lit "        i += 1;"
    ∷ lit "    }"
    ∷ lit "    None"
    ∷ lit "}"
    ∷ []
    ∷ []
