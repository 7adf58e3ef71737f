-- ===== src/Codegen/Sorting.antt =====
-- tools/schema-orm-codegen.mjs, the sorted lists of paths that `checkGenerated` compares: dropping the
-- policy file from a sorted list leaves the others sorted.
use cliptown_lib_core.Prelude.{
  ◌≡◌, refl, sym, inl, inr, Bool, true, false, List, [], ◌∷◌, ◌++◌, keep, All, All-map, Bool-cases,
}
use cliptown_lib_core.Text.{Text}
use cliptown_lib_core.Json.Canonical.{text_less, insert, insertion_sort}
use cliptown_lib_core.Json.Order.{AtMost, less-AtMost, AtMost-trans, less_trans}

-- Nothing in the list stands before a later element.
abbrev Sorted : List Text → Type 0
Sorted [] = Unit
Sorted (d ∷ ds) = All (AtMost d) ds × Sorted ds

AtMost-insert :
    (d e : Text) (ds : List Text)
    → AtMost d e
    → All (AtMost d) ds
    → All (AtMost d) (insert text_less e ds)
unfolding insert
AtMost-insert d e [] h k = (h, tt)
AtMost-insert d e (x ∷ ds) h k = elim (Bool-cases (text_less e x)) [
  | inl s ↦ rw s (h, k)
  | inr s ↦ rw s (k.0, AtMost-insert d e ds h k.1)
]

insert-Sorted : (e : Text) (ds : List Text) → Sorted ds → Sorted (insert text_less e ds)
unfolding insert
insert-Sorted e [] h = (tt, tt)
insert-Sorted e (d ∷ ds) h = elim (Bool-cases (text_less e d)) [
  | inl s ↦
      let before = less-AtMost e d s in
      rw s ((before, All-map (λ x later. AtMost-trans e d x before later) ds h.0), h)
  | inr s ↦ rw s (AtMost-insert d e ds s h.0, insert-Sorted e ds h.1)
]

insertion_sort-Sorted : (ts : List Text) → Sorted (insertion_sort text_less ts)
unfolding insertion_sort
insertion_sort-Sorted [] = tt
insertion_sort-Sorted (t ∷ ts) =
    insert-Sorted t (insertion_sort text_less ts) (insertion_sort-Sorted ts)

insert-front :
    (e : Text) (ds : List Text)
    → All (λ x. text_less e x ≡ true) ds
    → insert text_less e ds ≡ e ∷ ds
unfolding insert
insert-front e [] h = refl
insert-front e (d ∷ ds) h = rw h.0 refl

module _ (p : Text → Bool) where
  All-keep : (Q : Text → Type 0) (ds : List Text) → All Q ds → All Q (keep p ds)
  unfolding keep
  All-keep Q [] h = tt
  All-keep Q (d ∷ ds) h = elim (Bool-cases (p d)) [
    | inl e ↦ rw e (h.0, All-keep Q ds h.1)
    | inr e ↦ rw e (All-keep Q ds h.1)
  ]

  keep-insert_dropped :
      (e : Text) (ds : List Text) → p e ≡ false → keep p (insert text_less e ds) ≡ keep p ds
  unfolding keep insert
  keep-insert_dropped e [] h = rw h refl
  keep-insert_dropped e (d ∷ ds) h = elim (Bool-cases (text_less e d)) [
    | inl s ↦ rw (s, h) refl
    | inr s ↦ rw (s, keep-insert_dropped e ds h) refl
  ]

  keep-insert_kept :
      (e : Text) (ds : List Text)
      → p e ≡ true
      → Sorted ds
      → keep p (insert text_less e ds) ≡ insert text_less e (keep p ds)
  unfolding keep insert
  keep-insert_kept e [] h s = rw h refl
  keep-insert_kept e (d ∷ ds) h s = elim (Bool-cases (text_less e d)) [
    | inl before ↦
        let front = insert-front e (keep p (d ∷ ds)) (
          All-keep (λ x. text_less e x ≡ true) (d ∷ ds)
            (before, All-map (λ x later. less_trans e d x before later) ds s.0)) in
        rw (before, h) (sym front)
    | inr after ↦ elim (Bool-cases (p d)) [
      | inl q ↦ rw (after, q, after, keep-insert_kept e ds h s.1) refl
      | inr q ↦ rw (after, q, keep-insert_kept e ds h s.1) refl
    ]
  ]

  -- Sorting and then dropping one element that is not wanted.
  pub keep-insertion_sort_last :
      (ts : List Text) (r : Text)
      → All (λ t. p t ≡ true) ts
      → p r ≡ false
      → keep p (insertion_sort text_less (ts ++ r ∷ [])) ≡ insertion_sort text_less ts
  unfolding insertion_sort keep insert
  keep-insertion_sort_last [] r h k = rw k refl
  keep-insertion_sort_last (t ∷ ts) r h k =
      rw
        (
          keep-insert_kept t (insertion_sort text_less (ts ++ r ∷ [])) h.0
              (insertion_sort-Sorted (ts ++ r ∷ [])),
          keep-insertion_sort_last ts r h.1 k,
        )
        refl

  pub keep-insertion_sort :
      (ts : List Text)
      → All (λ t. p t ≡ true) ts
      → keep p (insertion_sort text_less ts) ≡ insertion_sort text_less ts
  unfolding insertion_sort keep
  keep-insertion_sort [] h = refl
  keep-insertion_sort (t ∷ ts) h =
      rw
        (
          keep-insert_kept t (insertion_sort text_less ts) h.0 (insertion_sort-Sorted ts),
          keep-insertion_sort ts h.1,
        )
        refl
