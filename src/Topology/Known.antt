-- ===== src/Topology/Known.antt =====
-- Names of entities that are placed, ready or remaining.
use cliptown_lib_core.Prelude.{
  ◌≡◌, ◌≢◌, Bool, true, false, not, ◌⊎◌, inl, inr, List, [], ◌∷◌, ◌++◌, arith, keep, Bool-cases,
  All,
}
use cliptown_lib_core.Text.{Text, is_one_of}
use cliptown_lib_core.Text.Equality.{IsIn, is_one_of→IsIn, not_one_of}
use cliptown_lib_core.Schema.{Entity}
use cliptown_lib_core.Schema.Normalize.{names}
use cliptown_lib_core.Topology.{insert, sort_by_name, delete_all}

abbrev pub Included : List Text → List Text → Type 0
Included known more = (s : Text) → IsIn s known → IsIn s more

pub not-IsIn : (s : Text) (ts : List Text) → is_one_of s ts ≡ false → ¬ IsIn s ts
not-IsIn s ts h m = go ts (not_one_of s ts h) m
  where
    go : (us : List Text) → All (λ t. s ≢ t) us → ¬ IsIn s us
    go [] h m = m
    go (u ∷ us) h (inl e) = h.0 e
    go (u ∷ us) h (inr m) = go us h.1 m

pub IsIn-append_left : (s : Text) (xs ys : List Text) → IsIn s xs → IsIn s (xs ++ ys)
IsIn-append_left s [] ys m = absurd m
IsIn-append_left s (x ∷ xs) ys (inl e) = inl e
IsIn-append_left s (x ∷ xs) ys (inr m) = inr (IsIn-append_left s xs ys m)

pub IsIn-append_right : (s : Text) (xs ys : List Text) → IsIn s ys → IsIn s (xs ++ ys)
IsIn-append_right s [] ys m = m
IsIn-append_right s (x ∷ xs) ys m = inr (IsIn-append_right s xs ys m)

pub keep-IsTrue : (p : Entity → Bool) (es : List Entity) → All (λ e. p e ≡ true) (keep p es)
unfolding keep
keep-IsTrue p [] = tt
keep-IsTrue p (e ∷ es) = elim (Bool-cases (p e)) [
  | inl h ↦ rw h (h, keep-IsTrue p es)
  | inr h ↦ rw h (keep-IsTrue p es)
]

pub nil-IsFalse :
    (p : Entity → Bool) (es : List Entity) → keep p es ≡ [] → All (λ e. p e ≡ false) es
unfolding keep
nil-IsFalse p [] h = tt
nil-IsFalse p (e ∷ es) h = elim (Bool-cases (p e)) [
  | inl yes_e ↦ absurd (ground arith)
  | inr no_e ↦ (no_e, nil-IsFalse p es (ground arith))
]

module _ (P : Entity → Type 0) where
  pub keep-All : (p : Entity → Bool) (es : List Entity) → All P es → All P (keep p es)
  unfolding keep
  keep-All p [] h = tt
  keep-All p (e ∷ es) h = elim (Bool-cases (p e)) [
    | inl kept ↦ rw kept (h.0, keep-All p es h.1)
    | inr dropped ↦ rw dropped (keep-All p es h.1)
  ]

  insert-All :
      (le : Text → Text → Bool) (e : Entity) (es : List Entity)
      → P e
      → All P es
      → All P (insert le e es)
  unfolding insert
  insert-All le e [] p h = (p, tt)
  insert-All le e (d ∷ ds) p h = elim (Bool-cases (le e.name d.name)) [
    | inl first ↦ rw first (p, h)
    | inr later ↦ rw later (h.0, insert-All le e ds p h.1)
  ]

  pub sort-All :
      (le : Text → Text → Bool) (es : List Entity) → All P es → All P (sort_by_name le es)
  unfolding sort_by_name
  sort-All le [] h = tt
  sort-All le (e ∷ es) h = insert-All le e (sort_by_name le es) h.0 (sort-All le es h.1)

insert-Included :
    (le : Text → Text → Bool) (e : Entity) (es : List Entity)
    → Included (e.name ∷ names es) (names (insert le e es))
unfolding insert
insert-Included le e [] s m = m
insert-Included le e (d ∷ ds) s m = elim (Bool-cases (le e.name d.name)) [
  | inl first ↦ rw first m
  | inr later ↦ rw later (behind m (insert-Included le e ds s))
]
  where
    behind :
        IsIn s (e.name ∷ d.name ∷ names ds)
        → (IsIn s (e.name ∷ names ds) → IsIn s (names (insert le e ds)))
        → (s ≡ d.name) ⊎ IsIn s (names (insert le e ds))
    behind (inl h) rest = inr (rest (inl h))
    behind (inr (inl h)) rest = inl h
    behind (inr (inr h)) rest = inr (rest (inr h))

pub sort-Included :
    (le : Text → Text → Bool) (es : List Entity) → Included (names es) (names (sort_by_name le es))
unfolding sort_by_name
sort-Included le [] s m = m
sort-Included le (e ∷ es) s (inl h) = insert-Included le e (sort_by_name le es) s (inl h)
sort-Included le (e ∷ es) s (inr m) =
    insert-Included le e (sort_by_name le es) s (inr (sort-Included le es s m))

-- A name survives the deletion of entities that do not have it.
kept_name :
    (placed : List Entity) (s : Text) (es : List Entity)
    → is_one_of s (names placed) ≡ false
    → IsIn s (names es)
    → IsIn s (names (delete_all placed es))
unfolding delete_all keep
kept_name placed s [] h m = m
kept_name placed s (e ∷ es) h (inl same) =
    let stays : not (is_one_of e.name (names placed)) ≡ true = rw (← same, h) in rw stays (inl same)
kept_name placed s (e ∷ es) h (inr m) = elim (Bool-cases (not (is_one_of e.name (names placed)))) [
  | inl stays ↦ rw stays (inr (kept_name placed s es h m))
  | inr goes ↦ rw goes (kept_name placed s es h m)
]

pub IsIn-delete_all :
    (placed : List Entity) (s : Text) (es : List Entity)
    → IsIn s (names es)
    → IsIn s (names placed) ⊎ IsIn s (names (delete_all placed es))
IsIn-delete_all placed s es m = elim (Bool-cases (is_one_of s (names placed))) [
  | inl h ↦ inl (is_one_of→IsIn s (names placed) h)
  | inr h ↦ inr (kept_name placed s es h m)
]

pub delete_all-All :
    (P : Entity → Type 0) (placed es : List Entity) → All P es → All P (delete_all placed es)
unfolding delete_all
delete_all-All P placed es h = keep-All P _ es h
