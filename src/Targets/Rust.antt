-- ===== src/Targets/Rust.antt =====
-- tools/schema-orm/rust.mjs: SeaORM entities.
use mathlib.Core.List.{flat_map}
use cliptown_lib_core.Prelude.{
  ℕ, suc, Bool, not, List, [], ◌∷◌, ◌++◌, map, ltb, if◌then◌else◌, Result, ok, ◌>>=◌, traverse,
  is_empty,
}
use cliptown_lib_core.Text.{Text, lit, text_eq, join, concat, digits, is_blank}
use cliptown_lib_core.Names.{snake_case, pascal_case}
use cliptown_lib_core.Names.Languages.{rust_name}
use cliptown_lib_core.Schema.{Field, Reference, Entity, Model}
use cliptown_lib_core.Sql.{has_format, is_structured, entity_of, finish_lines}
use cliptown_lib_core.Targets.{
  by_kind, by_format, header_line, is_key, one_line, when, relations_of,
}

unfoldable pub rust_scalar : Field → Result Text
rust_scalar field =
    by_kind (lit "unsupported Rust type for " ++ field.name) field
      (by_format field (lit "Uuid") (lit "DateTimeWithTimeZone") (lit "String"))
      (if has_format field (lit "int32") then lit "i32" else lit "i64") (lit "f64") (lit "bool")
      (lit "Json") (lit "Json")

unfoldable pub rust_attributes : Entity → Field → List Text
rust_attributes entity field =
    (if is_key entity field then lit "primary_key" ∷ lit "auto_increment = false" ∷ [] else [])
    ++ when (is_structured field) (lit "column_type = \"JsonBinary\"")
    ++ when (not (text_eq field.column (snake_case field.name)))
        (lit "column_name = \"" ++ field.column ++ lit "\"")

unfoldable pub rust_field : Entity → Field → Result (List Text)
rust_field entity field = do
  scalar ← rust_scalar field
  let attributes = rust_attributes entity field
  let type = if field.nullable then lit "Option<" ++ scalar ++ lit ">" else scalar
  ok (
      when (not (is_empty attributes))
        (lit "        #[sea_orm(" ++ join (lit ", ") attributes ++ lit ")]")
      ++ concat (lit "        pub " ∷ rust_name field.name ∷ lit ": " ∷ type ∷ lit "," ∷ []) ∷ [])

-- The `counts` map: how many references point to each entity, in the order of first mention.
unfoldable pub count_reference : Text → List (Text × ℕ) → List (Text × ℕ)
count_reference name [] = (name, 1) ∷ []
count_reference name ((k, n) ∷ rest) =
    if text_eq k name then (k, suc n) ∷ rest else (k, n) ∷ count_reference name rest

unfoldable pub count_references : List (Text × ℕ) → List Reference → List (Text × ℕ)
count_references counts [] = counts
count_references counts (r ∷ rs) = count_references (count_reference r.entity counts) rs

unfoldable pub count_of : Text → List (Text × ℕ) → ℕ
count_of name [] = 0
count_of name ((k, n) ∷ rest) = if text_eq k name then n else count_of name rest

unfoldable pub is_repeated : List (Text × ℕ) → Reference → Bool
is_repeated counts ref = ltb 1 (count_of ref.entity counts)

unfoldable pub variant_name : List (Text × ℕ) → Field × Reference → Text
variant_name counts (field, ref) =
    if is_repeated counts ref
    then pascal_case (ref.entity ++ lit "_" ++ field.name)
    else pascal_case ref.entity

unfoldable pub relation_variant :
    List Entity → List (Text × ℕ) → Field × Reference → Result (List Text)
relation_variant entities counts (field, ref) = do
  target ← entity_of entities ref.entity
  ok (
      lit "        #[sea_orm("
      ∷ (lit "            belongs_to = \"super::" ++ target.module_name ++ lit "::Entity\",")
      ∷ (lit "            from = \"Column::" ++ pascal_case field.name ++ lit "\",")
      ∷ concat (
          lit "            to = \"super::"
          ∷ target.module_name
          ∷ lit "::Column::"
          ∷ pascal_case ref.target
          ∷ lit "\""
          ∷ [])
      ∷ lit "        )]"
      ∷ (lit "        " ++ variant_name counts (field, ref) ++ lit ",")
      ∷ [])

unfoldable pub related_impl : List Entity → List (Text × ℕ) → Field × Reference → Result (List Text)
related_impl entities counts (field, ref) = if is_repeated counts ref then ok [] else do
  target ← entity_of entities ref.entity
  ok (
      concat
        (lit "    impl Related<super::" ∷ target.module_name ∷ lit "::Entity> for Entity {" ∷ [])
      ∷ lit "        fn to() -> RelationDef {"
      ∷ (lit "            Relation::" ++ pascal_case ref.entity ++ lit ".def()")
      ∷ lit "        }"
      ∷ lit "    }"
      ∷ []
      ∷ [])

unfoldable pub repeated_note : Text × ℕ → List Text
repeated_note (name, count) =
    if ltb 1 count
    then concat (
        lit "    // "
        ∷ digits count
        ∷ lit " foreign keys point to "
        ∷ name
        ∷ lit "; use Relation variants explicitly."
        ∷ [])
      ∷ []
      ∷ []
    else []

unfoldable pub relation_lines : List Entity → List (Field × Reference) → Result (List Text)
relation_lines entities [] = ok (lit "    pub enum Relation {}" ∷ [])
relation_lines entities (r ∷ rs) = do
  let counts = count_references [] (map (λ p. p.1) (r ∷ rs))
  variants ← traverse (relation_variant entities counts) (r ∷ rs)
  impls ← traverse (related_impl entities counts) (r ∷ rs)
  ok (
      lit "    pub enum Relation {" ∷ flat_map (λ ls. ls) variants
      ++ lit "    }" ∷ [] ∷ flat_map (λ ls. ls) impls
      ++ flat_map repeated_note counts)

unfoldable pub rust_entity : List Entity → Entity → Result (List Text)
rust_entity entities entity = do
  fields ← traverse (rust_field entity) entity.fields
  relation ← relation_lines entities (relations_of entity.fields)
  ok (
      (lit "pub mod " ++ entity.module_name ++ lit " {")
        ∷ lit "    use sea_orm::entity::prelude::*;"
        ∷ []
        ∷ when (not (is_blank entity.description)) (lit "    /// " ++ one_line entity.description)
      ++ lit "    #[derive(Clone, Debug, PartialEq, DeriveEntityModel)]"
        ∷ (lit "    #[sea_orm(table_name = \"" ++ entity.table ++ lit "\")]")
        ∷ lit "    pub struct Model {"
        ∷ flat_map (λ ls. ls) fields
      ++ lit "    }"
        ∷ []
        ∷ lit "    #[derive(Copy, Clone, Debug, EnumIter, DeriveRelation)]"
        ∷ relation
      ++ lit "    impl ActiveModelBehavior for ActiveModel {}" ∷ lit "}" ∷ [] ∷ [])

unfoldable pub generate_rust_sea_orm : Model → Result Text
generate_rust_sea_orm model = do
  bodies ← traverse (rust_entity model.entities) model.entities
  ok (
      finish_lines
        (header_line ∷ lit "#![allow(clippy::module_inception)]" ∷ [] ∷ flat_map (λ ls. ls) bodies))
