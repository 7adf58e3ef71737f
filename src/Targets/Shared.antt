-- ===== src/Targets/Shared.antt =====
-- tools/schema-orm/shared.mjs: the descriptors of the entities for TypeScript, Rust, Go and Dart.
use mathlib.Core.List.{flat_map}
use cliptown_lib_core.Prelude.{List, [], ◌∷◌, ◌++◌, map, Result, keep}
use cliptown_lib_core.Text.{Text, lit, join, concat, trim_end}
use cliptown_lib_core.Json.{Json, str, arr, obj}
use cliptown_lib_core.Json.Stringify.{quote}
use cliptown_lib_core.Schema.{Entity, Model}
use cliptown_lib_core.Targets.{header_line, quotes}
use cliptown_lib_core.Json.{member, end, to_items, text_array}
use cliptown_lib_core.Json.Canonical.{stable_stringify}

-- An object of `descriptorData`.
pub record Descriptor : Type 0 where
  pub entity : Text
  pub interface_type : Text
  pub table : Text
  pub primary_key : List Text
  pub required_fields : List Text

unfoldable pub descriptor : Entity → Descriptor
descriptor entity = record {
  entity = entity.name;
  interface_type = entity.interface_type;
  table = entity.table;
  primary_key = entity.primary_key;
  required_fields = map (λ f. f.name) (keep (λ f. f.required) entity.fields);
}

unfoldable pub descriptor_data : Model → List Descriptor
descriptor_data model = map descriptor model.entities

-- A descriptor as the document that `JSON.stringify` prints.
unfoldable pub descriptor_json : Descriptor → Json
descriptor_json d = obj (
    member (lit "entity") (str d.entity) (
      member (lit "interfaceType") (str d.interface_type) (
        member (lit "table") (str d.table) (
          member (lit "primaryKey") (text_array d.primary_key)
            (member (lit "requiredFields") (text_array d.required_fields) end)))))

unfoldable pub generate_shared_ts : Model → Text
generate_shared_ts model = concat (
    header_line
    ∷ lit
        "\n\nexport type EntityDescriptor = Readonly<{\n  entity: string;\n  interfaceType: string;\n  table: string;\n  primaryKey: readonly string[];\n  requiredFields: readonly string[];\n}>;\n\nexport const entityDescriptors = "
    ∷ trim_end (stable_stringify (arr (to_items (map descriptor_json (descriptor_data model)))))
    ∷ lit
        " as const satisfies readonly EntityDescriptor[];\n\nexport function stableEntityKey(entity: string, record: Readonly<Record<string, unknown>>): string {\n  const descriptor = entityDescriptors.find((item) => item.entity === entity);\n  if (!descriptor) throw new Error(`unknown entity: ${entity}`);\n  return [entity, ...descriptor.primaryKey.map((field) => {\n    const value = record[field];\n    if (value === null || value === undefined || value === '') throw new Error(`missing primary key field ${entity}.${field}`);\n    return encodeURIComponent(String(value));\n  })].join(':');\n}\n"
    ∷ [])

unfoldable pub rust_descriptor : Descriptor → List Text
rust_descriptor d =
    lit "    EntityDescriptor {"
    ∷ concat (lit "        entity: " ∷ quote d.entity ∷ lit "," ∷ [])
    ∷ concat (lit "        interface_type: " ∷ quote d.interface_type ∷ lit "," ∷ [])
    ∷ concat (lit "        table: " ∷ quote d.table ∷ lit "," ∷ [])
    ∷ concat (lit "        primary_key: &[" ∷ quotes d.primary_key ∷ lit "]," ∷ [])
    ∷ concat (lit "        required_fields: &[" ∷ quotes d.required_fields ∷ lit "]," ∷ [])
    ∷ lit "    },"
    ∷ []

unfoldable pub generate_shared_rust : Model → Text
generate_shared_rust model = join (lit "\n") (
    header_line
      ∷ []
      ∷ lit "#[derive(Clone, Copy, Debug, PartialEq, Eq)]"
      ∷ lit "pub struct EntityDescriptor {"
      ∷ lit "    pub entity: &'static str,"
      ∷ lit "    pub interface_type: &'static str,"
      ∷ lit "    pub table: &'static str,"
      ∷ lit "    pub primary_key: &'static [&'static str],"
      ∷ lit "    pub required_fields: &'static [&'static str],"
      ∷ lit "}"
      ∷ []
      ∷ lit "pub const ENTITY_DESCRIPTORS: &[EntityDescriptor] = &["
      ∷ flat_map rust_descriptor (descriptor_data model)
    ++ lit "];"
      ∷ []
      ∷ lit "pub fn entity_descriptor(entity: &str) -> Option<&'static EntityDescriptor> {"
      ∷ lit "    ENTITY_DESCRIPTORS.iter().find(|candidate| candidate.entity == entity)"
      ∷ lit "}"
      ∷ []
      ∷ [])

unfoldable pub go_descriptor : Descriptor → Text
go_descriptor d = concat (
    lit "  {Entity: "
    ∷ quote d.entity
    ∷ lit ", InterfaceType: "
    ∷ quote d.interface_type
    ∷ lit ", Table: "
    ∷ quote d.table
    ∷ lit ", PrimaryKey: []string{"
    ∷ quotes d.primary_key
    ∷ lit "}, RequiredFields: []string{"
    ∷ quotes d.required_fields
    ∷ lit "}},"
    ∷ [])

unfoldable pub generate_shared_go : (Text → Result Text) → Model → Result Text
generate_shared_go gofmt model = gofmt (
    join (lit "\n") (
      header_line
        ∷ lit "package shared"
        ∷ []
        ∷ lit "import ("
        ∷ lit "  \"fmt\""
        ∷ lit "  \"net/url\""
        ∷ lit "  \"strings\""
        ∷ lit ")"
        ∷ []
        ∷ lit "type EntityDescriptor struct {"
        ∷ lit "  Entity string"
        ∷ lit "  InterfaceType string"
        ∷ lit "  Table string"
        ∷ lit "  PrimaryKey []string"
        ∷ lit "  RequiredFields []string"
        ∷ lit "}"
        ∷ []
        ∷ lit "var EntityDescriptors = []EntityDescriptor{"
        ∷ map go_descriptor (descriptor_data model)
      ++ lit "}"
        ∷ []
        ∷ lit "func StableEntityKey(entity string, record map[string]any) (string, error) {"
        ∷ lit "  for _, descriptor := range EntityDescriptors {"
        ∷ lit "    if descriptor.Entity != entity { continue }"
        ∷ lit "    parts := []string{entity}"
        ∷ lit "    for _, field := range descriptor.PrimaryKey {"
        ∷ lit "      value, ok := record[field]"
        ∷ lit
            "      if !ok || value == nil || fmt.Sprint(value) == \"\" { return \"\", fmt.Errorf(\"missing primary key field %s.%s\", entity, field) }"
        ∷ lit "      parts = append(parts, url.QueryEscape(fmt.Sprint(value)))"
        ∷ lit "    }"
        ∷ lit "    return strings.Join(parts, \":\"), nil"
        ∷ lit "  }"
        ∷ lit "  return \"\", fmt.Errorf(\"unknown entity: %s\", entity)"
        ∷ lit "}"
        ∷ []
        ∷ [])
    ++ 10 ∷ [])

unfoldable pub dart_descriptor : Descriptor → Text
dart_descriptor d = concat (
    lit "  EntityDescriptor(entity: "
    ∷ quote d.entity
    ∷ lit ", interfaceType: "
    ∷ quote d.interface_type
    ∷ lit ", table: "
    ∷ quote d.table
    ∷ lit ", primaryKey: <String>["
    ∷ quotes d.primary_key
    ∷ lit "], requiredFields: <String>["
    ∷ quotes d.required_fields
    ∷ lit "]),"
    ∷ [])

unfoldable pub generate_shared_dart : Model → Text
generate_shared_dart model = join (lit "\n") (
    header_line
      ∷ []
      ∷ lit "final class EntityDescriptor {"
      ∷ lit
          "  const EntityDescriptor({required this.entity, required this.interfaceType, required this.table, required this.primaryKey, required this.requiredFields});"
      ∷ lit "  final String entity;"
      ∷ lit "  final String interfaceType;"
      ∷ lit "  final String table;"
      ∷ lit "  final List<String> primaryKey;"
      ∷ lit "  final List<String> requiredFields;"
      ∷ lit "}"
      ∷ []
      ∷ lit "const entityDescriptors = <EntityDescriptor>["
      ∷ map dart_descriptor (descriptor_data model)
    ++ lit "];"
      ∷ []
      ∷ lit "String stableEntityKey(String entity, Map<String, Object?> record) {"
      ∷ lit
          "  final descriptor = entityDescriptors.where((candidate) => candidate.entity == entity).firstOrNull;"
      ∷ lit
          "  if (descriptor == null) throw ArgumentError.value(entity, 'entity', 'unknown entity');"
      ∷ lit "  final parts = <String>[entity];"
      ∷ lit "  for (final field in descriptor.primaryKey) {"
      ∷ lit "    final value = record[field];"
      ∷ lit
          "    if (value == null || value.toString().isEmpty) throw ArgumentError('missing primary key field $entity.$field');"
      ∷ lit "    parts.add(Uri.encodeComponent(value.toString()));"
      ∷ lit "  }"
      ∷ lit "  return parts.join(':');"
      ∷ lit "}"
      ∷ []
      ∷ [])
