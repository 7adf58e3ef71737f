-- ===== src/Schema.antt =====
-- tools/schema-orm/core.mjs, `normalizeSchema`: the model of a persistence schema, and the steps
-- that read it from a JSON Schema document.
pub mod Fields
pub mod Entities
pub mod Normalize
pub mod WellFormed
use cliptown_lib_core.Prelude.{ℕ, Bool, List, Option}
use cliptown_lib_core.Text.{Text}
use cliptown_lib_core.Json.{Json}

-- The keywords of a property that the generators read. A `format` that is not a string equals none
-- of the formats, as an absent one; `choices` is `enum`, empty where that is absent.
pub record Property : Type 0 where
  pub format : Option Text
  pub max_length : Option ℕ
  pub initial : Option Json
  pub choices : List Json

-- An action that is absent or empty is `none`.
pub record Reference : Type 0 where
  pub entity : Text
  pub target : Text
  pub on_delete : Option Text
  pub on_update : Option Text

-- The `x-db` keywords of a property.
pub record FieldDb : Type 0 where
  pub postgres_type : Option Text
  pub sqlite_type : Option Text
  pub initial : Option Text
  pub initial_by_dialect : List (Text × Text)
  pub unique : Bool
  pub references : Option Reference

pub record Field : Type 0 where
  pub name : Text
  pub column : Text
  pub property : Property
  pub db : FieldDb
  pub kind : Text
  pub required : Bool
  pub nullable : Bool

pub record Index : Type 0 where
  pub name : Text
  pub fields : List Text
  pub unique : Bool
  pub condition : Option Text

-- A name is `none` where the document has none: `assertIdentifier` lets the text `undefined` pass.
pub record Check : Type 0 where
  pub name : Option Text
  pub expression : Text

pub record Entity : Type 0 where
  pub name : Text
  pub module_name : Text
  pub class_name : Text
  pub interface_type : Text
  pub table : Text
  pub description : Text
  pub fields : List Field
  pub primary_key : List Text
  pub indexes : List Index
  pub checks : List Check

pub record Model : Type 0 where
  pub schema : Json
  pub product : Text
  pub interfaces : Option Json
  pub entities : List Entity
