-- ===== src/Topology.antt =====
-- tools/schema-orm/core.mjs, `topologicalEntities`: the entities in an order in which a table comes
-- after the tables that it references.
pub mod Rounds
pub mod Permutation
pub mod Known
pub mod Order
pub mod Acyclic
use cliptown_lib_core.Prelude.{
  ℕ, zero, suc, Bool, true, false, not, ◌||◌, List, [], ◌∷◌, ◌++◌, map, Option, none, some,
  if◌then◌else◌, length, all, keep, get_or,
}
use cliptown_lib_core.Text.{Text, is_one_of}
use cliptown_lib_core.Schema.{Field, Reference, Entity, Model}
use cliptown_lib_core.Schema.Normalize.{names}

-- `!field.db.references || !remaining.has(field.db.references.entity)`.
unfoldable pub is_settled : List Text → Field → Bool
is_settled remaining field = elim field.db.references [
  | none ↦ true
  | some ref ↦ not (is_one_of ref.entity remaining)
]

unfoldable pub is_ready : List Text → Entity → Bool
is_ready remaining entity = all (is_settled remaining) entity.fields

-- `localeCompare` of the runtime: `le a b` stands for `a.localeCompare(b) <= 0`.
module _ (le : Text → Text → Bool) where
  unfoldable pub insert : Entity → List Entity → List Entity
  insert e [] = e ∷ []
  insert e (d ∷ ds) = if le e.name d.name then e ∷ d ∷ ds else d ∷ insert e ds

  -- `ready.sort((a, b) => a.name.localeCompare(b.name))`, which is stable.
  unfoldable pub sort_by_name : List Entity → List Entity
  sort_by_name [] = []
  sort_by_name (e ∷ es) = insert e (sort_by_name es)

-- `remaining.delete(entity.name)` for each entity of `placed`.
unfoldable pub delete_all : List Entity → List Entity → List Entity
delete_all placed remaining = keep (λ e. not (is_one_of e.name (names placed))) remaining

module _ (le : Text → Text → Bool) (entities : List Entity) where
  -- The `while` loop; `none` means that the fuel ran out (Topology/Rounds).
  unfoldable pub rounds : ℕ → List Entity → List Entity → Option (List Entity)
  rounds fuel result [] = some result
  rounds zero result (e ∷ es) = none
  rounds (suc fuel) result (e ∷ es) = elim (keep (is_ready (names (e ∷ es))) (e ∷ es)) [
    | [] ↦ some entities
    | r ∷ rs ↦ rounds fuel (result ++ sort_by_name le (r ∷ rs)) (delete_all (r ∷ rs) (e ∷ es))
  ]

unfoldable pub topological_entities : (Text → Text → Bool) → List Entity → List Entity
topological_entities le entities =
    get_or (rounds le entities (length entities) [] entities) entities
