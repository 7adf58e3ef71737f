-- ===== src/Topology/Permutation.antt =====
-- `topologicalEntities` neither loses, nor adds, nor repeats an entity.
use mathlib.Core.Path.{subst}
use mathlib.Core.List.Perm
use mathlib.Core.List.{Perm, perm_middle}
use cliptown_lib_core.Prelude.{
  ◌≡◌, ◌≢◌, refl, sym, Bool, true, false, not, inl, inr, List, [], ◌∷◌, ◌++◌, append-nil,
  append_assoc, arith, keep, Bool-cases, All, All-map, ap, ◌∙◌,
}
use cliptown_lib_core.Text.{Text, text_eq, is_one_of}
use cliptown_lib_core.Text.Equality.{text_eq_refl, text_eq→eq, Distinct}
use cliptown_lib_core.Schema.{Entity}
use cliptown_lib_core.Schema.Normalize.{names}
use cliptown_lib_core.Topology.{is_ready, insert, sort_by_name, delete_all, topological_entities}
use cliptown_lib_core.Topology.Rounds.{Rule, topological_entities_ind}

module _ (le : Text → Text → Bool) where
  insert-perm : (e : Entity) (es : List Entity) → Perm (insert le e es) (e ∷ es)
  unfolding insert
  insert-perm e [] = Perm.refl _
  insert-perm e (d ∷ ds) = elim (Bool-cases (le e.name d.name)) [
    | inl first ↦ rw first (Perm.refl _)
    | inr later ↦ rw later (Perm.trans (Perm.cons d (insert-perm e ds)) (Perm.swap e d ds))
  ]

  pub sort_by_name-perm : (es : List Entity) → Perm (sort_by_name le es) es
  unfolding sort_by_name
  sort_by_name-perm [] = Perm.refl _
  sort_by_name-perm (e ∷ es) =
      Perm.trans (insert-perm e (sort_by_name le es)) (Perm.cons e (sort_by_name-perm es))

text_eq_of_ne : (s t : Text) → s ≢ t → text_eq s t ≡ false
text_eq_of_ne s t h = elim (Bool-cases (text_eq s t)) [
  | inl e ↦ absurd (h (text_eq→eq s t e))
  | inr e ↦ e
]

-- A name that stands nowhere in a list stands nowhere in a part of it.
absent :
    (p : Entity → Bool) (s : Text) (es : List Entity)
    → All (λ t. s ≢ t) (names es)
    → is_one_of s (names (keep p es)) ≡ false
unfolding is_one_of keep
absent p s [] h = refl
absent p s (e ∷ es) h = ground (arith, absent p s es h.1, text_eq_of_ne s e.name h.0)

present : (s : Text) (ts : List Text) → is_one_of s (s ∷ ts) ≡ true
unfolding is_one_of
present s ts = ground (arith, text_eq_refl s)

-- What holds of the names of a list holds of those that a test keeps.
All-keep :
    (p : Entity → Bool) (s : Text) (es : List Entity)
    → All (λ t. s ≢ t) (names es)
    → All (λ t. s ≢ t) (names (keep p es))
unfolding keep
All-keep p s [] h = tt
All-keep p s (e ∷ es) h = elim (Bool-cases (p e)) [
  | inl kept ↦ rw kept (h.0, All-keep p s es h.1)
  | inr dropped ↦ rw dropped (All-keep p s es h.1)
]

Distinct-keep :
    (p : Entity → Bool) (es : List Entity) → Distinct (names es) → Distinct (names (keep p es))
unfolding keep
Distinct-keep p [] h = tt
Distinct-keep p (e ∷ es) h = elim (Bool-cases (p e)) [
  | inl kept ↦ rw kept (All-keep p e.name es h.0, Distinct-keep p es h.1)
  | inr dropped ↦ rw dropped (Distinct-keep p es h.1)
]

-- With distinct names, deleting by name what a test keeps deletes exactly what passes the test.
Deletes : (Entity → Bool) → List Entity → List Entity → Type 0
Deletes p kept es = All (λ e. is_one_of e.name (names kept) ≡ p e) es

keep_congr :
    (p q : Entity → Bool) (es : List Entity) → All (λ e. p e ≡ q e) es → keep p es ≡ keep q es
unfolding keep
keep_congr p q [] h = refl
keep_congr p q (e ∷ es) h = ground (arith, keep_congr p q es h.1)

skip :
    (p : Entity → Bool) (x : Entity) (kept es : List Entity)
    → All (λ t. x.name ≢ t) (names es)
    → Deletes p kept es
    → Deletes p (x ∷ kept) es
unfolding Deletes is_one_of
skip p x kept [] new h = tt
skip p x kept (e ∷ es) new h = (
  ground (arith, text_eq_of_ne e.name x.name (λ same. new.0 (sym same))),
  skip p x kept es new.1 h.1,
)

keep-true :
    (p : Entity → Bool) (e : Entity) (es : List Entity)
    → p e ≡ true
    → keep p (e ∷ es) ≡ e ∷ keep p es
unfolding keep
keep-true p e es h = rw h

keep-false :
    (p : Entity → Bool) (e : Entity) (es : List Entity) → p e ≡ false → keep p (e ∷ es) ≡ keep p es
unfolding keep
keep-false p e es h = rw h

keep-Deletes :
    (p : Entity → Bool) (es : List Entity) → Distinct (names es) → Deletes p (keep p es) es
unfolding Deletes
keep-Deletes p [] h = tt
keep-Deletes p (x ∷ es) h = elim (Bool-cases (p x)) [
  | inl e ↦
      subst (λ kept. Deletes p kept (x ∷ es)) (sym (keep-true p x es e))
        (
          present x.name (names (keep p es)) ∙ sym e,
          skip p x (keep p es) es h.0 (keep-Deletes p es h.1),
        )
  | inr e ↦
      subst (λ kept. Deletes p kept (x ∷ es)) (sym (keep-false p x es e))
        (absent p x.name es h.0 ∙ sym e, keep-Deletes p es h.1)
]

pub delete_all-keep :
    (p : Entity → Bool) (es : List Entity)
    → Distinct (names es)
    → delete_all (keep p es) es ≡ keep (λ e. not (p e)) es
unfolding delete_all Deletes
delete_all-keep p es h =
    keep_congr _ _ es (All-map (λ e same. ap not same) es (keep-Deletes p es h))

keep-perm : (p : Entity → Bool) (es : List Entity) → Perm (keep p es ++ keep (λ e. not (p e)) es) es
unfolding keep
keep-perm p [] = Perm.refl _
keep-perm p (e ∷ es) = elim (Bool-cases (p e)) [
  | inl h ↦ rw h (Perm.cons e (keep-perm p es))
  | inr h ↦ rw h (Perm.trans (perm_middle (keep p es) _) (Perm.cons e (keep-perm p es)))
]

record Inv (entities result remaining : List Entity) : Type 0 where
  distinct : Distinct (names remaining)
  same : Perm (result ++ remaining) entities

module _ (le : Text → Text → Bool) {entities : List Entity} (p : Entity → Bool)
    (result remaining : List Entity) where
  round-Inv :
      Inv entities result remaining
      → Inv entities
          (result ++ sort_by_name le (keep p remaining))
          (delete_all (keep p remaining) remaining)
  round-Inv inv =
      let deleted = delete_all-keep p remaining inv.distinct in
      rw deleted (record {
        distinct = Distinct-keep _ remaining inv.distinct;
        same = rw append_assoc (
            Perm.trans
              (Perm.append_left result (
                Perm.trans (Perm.append_right _ (sort_by_name-perm le (keep p remaining)))
                  (keep-perm p remaining)))
              inv.same);
      })

-- The order holds the given entities, each as often as it was given, where their names differ.
pub topological_entities-perm :
    (le : Text → Text → Bool) (entities : List Entity)
    → Distinct (names entities)
    → Perm (topological_entities le entities) entities
topological_entities-perm le entities distinct =
    topological_entities_ind rule (record { distinct = distinct; same = Perm.refl entities })
  where
    rule : Rule le entities (Inv entities) (λ order. Perm order entities)
    rule = record {
      finish = λ result inv. rw (← append-nil result) inv.same;
      stuck = λ _ _ _ _ _. Perm.refl entities;
      round = λ result remaining r rs inv found.
          rw (← found) (round-Inv le (is_ready (names remaining)) result remaining inv);
    }
