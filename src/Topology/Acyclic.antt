-- ===== src/Topology/Acyclic.antt =====
-- The headline about `topologicalEntities`: without a cycle of references the order is a proper one.
use cliptown_lib_core.Prelude.{
  ℕ, zero, suc, ◌<◌, ◌≡◌, refl, sym, Bool, true, false, not, inl, inr, List, [], ◌∷◌, Option, none,
  some, arith, keep, all, Bool-cases, All, In, All-In, OnSome,
}
use cliptown_lib_core.Text.{Text, is_one_of}
use cliptown_lib_core.Text.Equality.{IsIn, is_one_of→IsIn}
use cliptown_lib_core.Schema.{Field, Reference, Entity}
use cliptown_lib_core.Schema.Normalize.{names}
use cliptown_lib_core.Topology.{is_settled, is_ready, delete_all, topological_entities}
use cliptown_lib_core.Topology.Rounds.{Rule, topological_entities_ind}
use cliptown_lib_core.Topology.Known.{Included, nil-IsFalse, delete_all-All}
use cliptown_lib_core.Topology.Order.{IsOrdered, IsRanked, Inv, round-Inv}

all-false :
    {A : Type 0} (p : A → Bool) (xs : List A) → all p xs ≡ false → (x : A) × In x xs × (p x ≡ false)
unfolding all
all-false p [] h = absurd (cc)
all-false p (x ∷ xs) h = elim (Bool-cases (p x)) [
  | inr fails ↦ (x, inl refl, fails)
  | inl holds ↦ let (y, m, fails) = all-false p xs (ground arith) in (y, inr m, fails)
]

find_named :
    (s : Text) (es : List Entity) → IsIn s (names es) → (e : Entity) × In e es × (e.name ≡ s)
find_named s [] m = absurd m
find_named s (e ∷ es) (inl same) = (e, inl refl, sym same)
find_named s (e ∷ es) (inr m) = let (d, n, same) = find_named s es m in (d, inr n, same)

-- A field that is not settled references an entity that remains.
unsettled :
    (remaining : List Text) (f : Field)
    → is_settled remaining f ≡ false
    → (ref : Reference) × (f.db.references ≡ some ref) × IsIn ref.entity remaining
unfolding is_settled
unsettled remaining f h = go f.db.references refl h
  where
    go :
        (o : Option Reference)
        → f.db.references ≡ o
        → elim o [ none ↦ true | some ref ↦ not (is_one_of ref.entity remaining) ] ≡ false
        → (ref : Reference) × (f.db.references ≡ some ref) × IsIn ref.entity remaining
    go none e h = absurd (cc)
    go (some ref) e h = (ref, e, is_one_of→IsIn ref.entity remaining (ground arith))

module _ (rank : Text → ℕ) (schema : List Text) (remaining : List Entity)
    (ranked : All (IsRanked rank schema) remaining) (within : Included (names remaining) schema)
    (idle : All (λ e. is_ready (names remaining) e ≡ false) remaining) where
  -- An entity that remains and is not ready references one that remains, of smaller rank.
  smaller :
      (e : Entity) → In e remaining → (d : Entity) × In d remaining × (rank d.name < rank e.name)
  unfolding is_ready
  smaller e m =
      let (f, fm, fails) =
        all-false (is_settled (names remaining)) e.fields
          (All-In (λ d. is_ready (names remaining) d ≡ false) e remaining idle m) in
      let (ref, same, waits) = unsettled (names remaining) f fails in
      let (d, dm, named) = find_named ref.entity remaining waits in
      let below : OnSome (λ (r : Reference). IsIn r.entity schema → rank r.entity < rank e.name)
          f.db.references =
        All-In _ f e.fields (All-In (IsRanked rank schema) e remaining ranked m) fm in
      (d, dm, rw named ((rw same at below) (within ref.entity waits)))

  descent : (n : ℕ) (e : Entity) → In e remaining → rank e.name < n → ⊥
  descent zero e m h = omega arith
  descent (suc n) e m h = let (d, dm, less) = smaller e m in descent n d dm (omega arith)

record RankedInv (rank : Text → ℕ) (schema : List Text) (result remaining : List Entity)
    : Type 0 where
  inv : Inv schema result remaining
  ranked : All (IsRanked rank schema) remaining
  within : Included (names remaining) schema

keep_names : (p : Entity → Bool) (es : List Entity) → Included (names (keep p es)) (names es)
unfolding keep
keep_names p [] s m = m
keep_names p (e ∷ es) s m = elim (Bool-cases (p e)) [
  | inl h ↦ front (rw h at m) (keep_names p es s)
  | inr h ↦ inr (keep_names p es s (rw h at m))
]
  where
    front :
        IsIn s (e.name ∷ names (keep p es))
        → (IsIn s (names (keep p es)) → IsIn s (names es))
        → IsIn s (e.name ∷ names es)
    front (inl same) rest = inl same
    front (inr m) rest = inr (rest m)

delete_all-names : (placed es : List Entity) → Included (names (delete_all placed es)) (names es)
unfolding delete_all
delete_all-names placed es = keep_names _ es

-- If the references between the entities can be ranked, so that none of them lies on a cycle, then
-- in the order every entity stands behind all entities of the schema that it references.
pub topological_entities-IsOrdered :
    (le : Text → Text → Bool) (rank : Text → ℕ) (entities : List Entity)
    → All (IsRanked rank (names entities)) entities
    → IsOrdered (names entities) [] (topological_entities le entities)
topological_entities-IsOrdered le rank entities ranked = topological_entities_ind rule (record {
  inv = record { covers = λ s m. inr m; ordered = tt };
  ranked = ranked;
  within = λ s m. m;
})
  where
    schema : List Text
    schema = names entities

    rule : Rule le entities (RankedInv rank schema) (IsOrdered schema [])
    rule = record {
      finish = λ result i. i.inv.ordered;
      stuck = λ result e es i idle. absurd (
          descent rank schema (e ∷ es) i.ranked i.within (nil-IsFalse _ (e ∷ es) idle)
            (suc (rank e.name)) e (inl refl) (omega arith));
      round = λ result remaining r rs i found. record {
        inv = rw (← found) (round-Inv le schema result remaining i.inv);
        ranked = delete_all-All (IsRanked rank schema) (r ∷ rs) remaining i.ranked;
        within = λ s m. i.within s (delete_all-names (r ∷ rs) remaining s m);
      };
    }
