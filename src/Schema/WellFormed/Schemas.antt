-- ===== src/Schema/WellFormed/Schemas.antt =====
-- `normalizeSchema` as a whole: every model that it returns is well formed.
use cliptown_lib_core.Prelude.{◌≢◌, List, []}
use cliptown_lib_core.Text.{Text}
use cliptown_lib_core.Text.Equality.{Distinct}
use cliptown_lib_core.Json.{Json}
use cliptown_lib_core.Schema.{Entity}
use cliptown_lib_core.Schema.Normalize.{names, tables, all_index_names}

record AreChecked (entities : List Entity) : Type 0 where
  some_entities : entities ≢ []
  names : Distinct (names entities)
  tables : Distinct (tables entities)
  index_names : Distinct (all_index_names entities)
