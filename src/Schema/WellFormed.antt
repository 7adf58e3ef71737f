-- ===== src/Schema/WellFormed.antt =====
-- What a model that `normalizeSchema` returns satisfies.
pub mod Fields
pub mod Entities
pub mod Schemas
use cliptown_lib_core.Prelude.{
  ℕ, ◌≤◌, ◌<◌, ◌≡◌, refl, ◌≢◌, Bool, true, false, not, ◌&&◌, ◌||◌, List, [], ◌∷◌, Option, none,
  some, ◌==◌, arith, All, OnSome, all_sound, and-eq-true, all,
}
use cliptown_lib_core.Text.{Text, is_lower, is_digit}
use cliptown_lib_core.Text.Equality.{IsIn, Distinct}
use cliptown_lib_core.Json.{max_safe}
use cliptown_lib_core.SqlGuard.Safe.{IsSafe}
use cliptown_lib_core.SqlGuard.Types.{IsSafeType}
use cliptown_lib_core.Schema.{Field, Index, Check, Entity, Model}
use cliptown_lib_core.Schema.Fields.Db.{dialects}
use cliptown_lib_core.Schema.Entities.{find_field, spell}
use cliptown_lib_core.Schema.Normalize.{
  columns, index_names, check_names, tables, names, all_index_names,
}

-- A lower-case letter or `_`, then lower-case letters, digits and `_`.
abbrev pub IsIdentifier : Text → Type 0
IsIdentifier [] = ⊥
IsIdentifier (c ∷ s) =
    ((is_lower c || c == b'_') ≡ true) × All (λ d. (is_lower d || is_digit d || d == b'_') ≡ true) s

pub record FieldIsSafe (f : Field) : Type 0 where
  pub column : IsIdentifier f.column
  pub max_length : OnSome (λ n. (0 < n) × (n ≤ max_safe)) f.property.max_length
  pub postgres_type : OnSome IsSafeType f.db.postgres_type
  pub sqlite_type : OnSome IsSafeType f.db.sqlite_type
  pub initial : OnSome IsSafe f.db.initial
  pub initial_by_dialect : All (λ d. IsIn d.0 dialects × IsSafe d.1) f.db.initial_by_dialect

abbrev pub Known : List Field → Text → Type 0
Known fields name = (f : Field) × (find_field fields name ≡ some f)

pub record IndexIsSafe (fields : List Field) (i : Index) : Type 0 where
  pub some_fields : i.fields ≢ []
  pub known : All (Known fields) i.fields
  pub name : IsIdentifier i.name
  pub condition : OnSome IsSafe i.condition

pub record CheckIsSafe (c : Check) : Type 0 where
  pub name : IsIdentifier (spell c.name)
  pub expression : IsSafe c.expression

pub record EntityIsSafe (e : Entity) : Type 0 where
  pub table : IsIdentifier e.table
  pub fields : All FieldIsSafe e.fields
  pub columns : Distinct (columns e.fields)
  pub some_key : e.primary_key ≢ []
  pub distinct_key : Distinct e.primary_key
  pub known_key : All (Known e.fields) e.primary_key
  pub indexes : All (IndexIsSafe e.fields) e.indexes
  pub checks : All CheckIsSafe e.checks
  pub check_names : Distinct (check_names e.checks)

pub record ModelIsSafe (m : Model) : Type 0 where
  pub some_entities : m.entities ≢ []
  pub entities : All EntityIsSafe m.entities
  pub names : Distinct (names m.entities)
  pub tables : Distinct (tables m.entities)
  pub index_names : Distinct (all_index_names m.entities)
