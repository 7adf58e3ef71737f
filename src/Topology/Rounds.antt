-- ===== src/Topology/Rounds.antt =====
-- The loop of `topologicalEntities` ends: each round places an entity.
use cliptown_lib_core.Prelude.{
  ℕ, zero, suc, ◌≤◌, ◌<◌, ◌≡◌, refl, Bool, true, false, not, ◌⊎◌, inl, inr, List, [], ◌∷◌, ◌++◌,
  some, arith, length, keep, Bool-cases,
}
use cliptown_lib_core.Text.{Text, is_one_of}
use cliptown_lib_core.Text.Equality.{text_eq_refl}
use cliptown_lib_core.Schema.{Entity}
use cliptown_lib_core.Schema.Normalize.{names}
use cliptown_lib_core.Topology.{is_ready, sort_by_name, delete_all, rounds, topological_entities}

length-keep {ℓ} : {A : Type ℓ} (p : A → Bool) (xs : List A) → length (keep p xs) ≤ length xs
unfolding keep
length-keep p [] = omega arith
length-keep p (x ∷ xs) = ground (arith, length-keep p xs)

is_one_of_self : (s : Text) (ts : List Text) → is_one_of s (s ∷ ts) ≡ true
unfolding is_one_of
is_one_of_self s ts = ground (arith, text_eq_refl s)

-- A test that holds of some element keeps a list, and one that fails of some element shortens it.
keep-cons :
    (p q : Entity → Bool) (xs : List Entity) (r : Entity) (rs : List Entity)
    → keep p xs ≡ r ∷ rs
    → q r ≡ false
    → length (keep q xs) < length xs
unfolding keep
keep-cons p q [] r rs h no_r = absurd (cc)
keep-cons p q (x ∷ xs) r rs h no_r = elim (Bool-cases (p x)) [
  | inl e ↦
      let same : x ≡ r = ground arith in
      let out : q x ≡ false = cc in rw out (omega (arith, length-keep q xs))
  | inr e ↦
      let rest : keep p xs ≡ r ∷ rs = ground arith in
      ground (arith, keep-cons p q xs r rs rest no_r)
]

length-delete_all :
    (p : Entity → Bool) (xs : List Entity) (r : Entity) (rs : List Entity)
    → keep p xs ≡ r ∷ rs
    → length (delete_all (r ∷ rs) xs) < length xs
unfolding delete_all
length-delete_all p xs r rs h =
    keep-cons p (λ e. not (is_one_of e.name (names (r ∷ rs)))) xs r rs h
      (rw (is_one_of_self r.name (names rs)))

pub List-cases {ℓ} :
    {A : Type ℓ} (xs : List A) → (xs ≡ []) ⊎ ((y : A) × (ys : List A) × (xs ≡ y ∷ ys))
List-cases [] = inl refl
List-cases (y ∷ ys) = inr (y, ys, refl)

-- A rule for the loop, from an invariant of the placed and the remaining entities: what holds when
-- nothing remains, and when no entity is ready, holds of the result.
pub record Rule (le : Text → Text → Bool) (entities : List Entity)
    (P : List Entity → List Entity → Type 0) (Q : List Entity → Type 0) : Type 0 where
  pub finish : (result : List Entity) → P result [] → Q result
  pub stuck :
      (result : List Entity) (e : Entity) (es : List Entity)
      → P result (e ∷ es)
      → keep (is_ready (names (e ∷ es))) (e ∷ es) ≡ []
      → Q entities
  pub round :
      (result remaining : List Entity) (r : Entity) (rs : List Entity)
      → P result remaining
      → keep (is_ready (names remaining)) remaining ≡ r ∷ rs
      → P (result ++ sort_by_name le (r ∷ rs)) (delete_all (r ∷ rs) remaining)

module _ {le : Text → Text → Bool} {entities : List Entity} {P : List Entity → List Entity → Type 0}
    {Q : List Entity → Type 0} (rule : Rule le entities P Q) where
  rounds_ind :
      (fuel : ℕ) (result remaining : List Entity)
      → length remaining ≤ fuel
      → P result remaining
      → (order : List Entity) × (rounds le entities fuel result remaining ≡ some order) × Q order
  unfolding rounds
  rounds_ind fuel result [] fits p = (result, refl, rule.finish result p)
  rounds_ind zero result (e ∷ es) fits p = absurd (omega arith)
  rounds_ind (suc fuel) result (e ∷ es) fits p =
      elim (List-cases (keep (is_ready (names (e ∷ es))) (e ∷ es))) [
        | inl idle ↦ rw (idle, rounds) (entities, refl, rule.stuck result e es p idle)
        | inr (r, rs, found) ↦
            let shorter = length-delete_all (is_ready (names (e ∷ es))) (e ∷ es) r rs found in
            rw (found, rounds)
              (rounds_ind fuel (result ++ sort_by_name le (r ∷ rs)) (delete_all (r ∷ rs) (e ∷ es))
                (omega arith) (rule.round result (e ∷ es) r rs p found))
      ]

  pub topological_entities_ind : P [] entities → Q (topological_entities le entities)
  unfolding topological_entities
  topological_entities_ind p =
      let (order, ends, q) = rounds_ind (length entities) [] entities (omega arith) p in rw ends q

-- The fuel that `topological_entities` gives is enough: the loop ends with an order.
pub rounds_total :
    (le : Text → Text → Bool) (entities : List Entity)
    → (order : List Entity) × (rounds le entities (length entities) [] entities ≡ some order)
rounds_total le entities =
    let (order, ends, _) = rounds_ind rule (length entities) [] entities (omega arith) tt in
    (order, ends)
  where
    rule : Rule le entities (λ _ _. Unit {0}) (λ _. Unit {0})
    rule = record { finish = λ _ _. tt; stuck = λ _ _ _ _ _. tt; round = λ _ _ _ _ _ _. tt }
