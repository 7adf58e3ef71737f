-- ===== src/Embeddings/Cuts/First.antt =====
-- scripts/embeddings/generate.mjs: the first occurrence of a word in a text.
use cliptown_lib_core.Prelude.{
  ℕ, ◌≤◌, ◌≡◌, refl, sym, ap, ap₂, ◌∙◌, inl, inr, [], ◌∷◌, ◌++◌, ◌==◌, Option, none, some, length,
  Bool-cases, Option-cases, arith, append_assoc, append-nil, length-append,
}
use cliptown_lib_core.Text.{Text, lit, text_eq}
use cliptown_lib_core.Embeddings.Postgres.{without_commit}
use cliptown_lib_core.Text.Cut.{after_word, cut_at, cut}
use cliptown_lib_core.Embeddings.Cuts.{after_word-append, after_word-eq-some, without_commit-long}

pub cut-eq-some :
    (word s before rest : Text) → cut word s ≡ some (before, rest) → s ≡ before ++ (word ++ rest)
unfolding cut cut_at
cut-eq-some word [] before rest h = cc
cut-eq-some word (c ∷ s) before rest h = elim (Option-cases (after_word word (c ∷ s))) [
  | inr (r, e) ↦
      let h' : ◌≡◌ {A = Option (Text × Text)} (some ([], r)) (some (before, rest)) = rw e at h in
      let none_before : before ≡ [] = cc in
      let same : rest ≡ r = cc in rw (none_before, same) (after_word-eq-some word (c ∷ s) r e)
  | inl e ↦ elim (Option-cases (cut word s)) [
    | inl f ↦
        let h' : ◌≡◌ {A = Option (Text × Text)} (none) (some (before, rest)) = rw (e, f) at h in
        absurd cc
    | inr (found, f) ↦
        let h' : ◌≡◌ {A = Option (Text × Text)} (some (c ∷ found.0, found.1))
            (some (before, rest)) =
          rw (e, f) at h in
        let longer : before ≡ c ∷ found.0 = cc in
        let same : rest ≡ found.1 = cc in
        rw (longer, same) (ap (λ t. c ∷ t) (cut-eq-some word s found.0 found.1 f))
  ]
]

-- A word that is found behind the first unit is not found at it.
pub cut-step :
    (word : Text) (c : ℕ) (s before rest : Text)
    → cut word (c ∷ s) ≡ some (c ∷ before, rest)
    → (after_word word (c ∷ s) ≡ none) × (cut word s ≡ some (before, rest))
unfolding cut cut_at
cut-step word c s before rest h = elim (Option-cases (after_word word (c ∷ s))) [
  | inr (r, e) ↦
      let h' : ◌≡◌ {A = Option (Text × Text)} (some ([], r)) (some (c ∷ before, rest)) =
        rw e at h in
      absurd cc
  | inl e ↦ elim (Option-cases (cut word s)) [
    | inl f ↦
        let h' : ◌≡◌ {A = Option (Text × Text)} (none) (some (c ∷ before, rest)) = rw (e, f) at h in
        absurd cc
    | inr (found, f) ↦
        let h' : ◌≡◌ {A = Option (Text × Text)} (some (c ∷ found.0, found.1))
            (some (c ∷ before, rest)) =
          rw (e, f) at h in
        let shorter : found.0 ≡ before = cc in
        let same : found.1 ≡ rest = cc in (e, f ∙ ap₂ (λ b r. some (b, r)) shorter same)
  ]
]

pub cut-suffix :
    (word x t before rest : Text)
    → cut word (x ++ t) ≡ some (x ++ before, rest)
    → cut word t ≡ some (before, rest)
cut-suffix word [] t before rest h = h
cut-suffix word (c ∷ x) t before rest h =
    cut-suffix word x t before rest (cut-step word c (x ++ t) (x ++ before) rest h).1

pub append-cancel : (xs ys zs : Text) → xs ++ zs ≡ ys ++ zs → xs ≡ ys
append-cancel [] [] zs h = refl
append-cancel [] (y ∷ ys) zs h = absurd (omega (arith, ap length h, length-append (y ∷ ys) zs))
append-cancel (x ∷ xs) [] zs h = absurd (omega (arith, ap length h, length-append (x ∷ xs) zs))
append-cancel (x ∷ xs) (y ∷ ys) zs h =
    let heads : x ≡ y = cc in
    let tails : xs ++ zs ≡ ys ++ zs = cc in ap₂ (λ a t. a ∷ t) heads (append-cancel xs ys zs tails)

-- A failure on a text that is long enough lasts.
pub after_word-eq-none :
    (word s more : Text)
    → length word ≤ length s
    → after_word word s ≡ none
    → after_word word (s ++ more) ≡ none
unfolding after_word
after_word-eq-none [] s more l h = cc
after_word-eq-none (a ∷ word) [] more l h = absurd (omega (arith, l))
after_word-eq-none (a ∷ word) (c ∷ s) more l h = elim (Bool-cases (a == c)) [
  | inl e ↦ rw e (after_word-eq-none word s more (omega (arith, l)) (rw e at h))
  | inr e ↦ rw e refl
]

pub after_word-longer :
    (word more s : Text) → after_word word s ≡ none → after_word (word ++ more) s ≡ none
unfolding after_word
after_word-longer [] more s h = absurd cc
after_word-longer (a ∷ word) more [] h = refl
after_word-longer (a ∷ word) more (c ∷ s) h = elim (Bool-cases (a == c)) [
  | inl e ↦ rw e (after_word-longer word more s (rw e at h))
  | inr e ↦ rw e refl
]

-- Where a word stands first behind `u`, so does a longer one that begins with it, whatever follows.
pub cut-longer :
    (a : ℕ) (w v u more : Text)
    → cut (a ∷ w) (u ++ (a ∷ w)) ≡ some (u, [])
    → cut ((a ∷ w) ++ v) (u ++ ((a ∷ w) ++ (v ++ more))) ≡ some (u, more)
unfolding cut cut_at
cut-longer a w v [] more h =
    let found : after_word ((a ∷ w) ++ v) ((a ∷ w) ++ (v ++ more)) ≡ some more =
      ap (after_word ((a ∷ w) ++ v)) (sym (append_assoc (a ∷ w) v more))
      ∙ after_word-append ((a ∷ w) ++ v) more in
    rw found refl
cut-longer a w v (c ∷ u) more h =
    let (fails, later) = cut-step (a ∷ w) c (u ++ (a ∷ w)) u [] h in
    let long : length (a ∷ w) ≤ length ((c ∷ u) ++ (a ∷ w)) =
      omega (arith, length-append (c ∷ u) (a ∷ w)) in
    let lasts = after_word-eq-none (a ∷ w) ((c ∷ u) ++ (a ∷ w)) (v ++ more) long fails in
    let none_here = after_word-longer (a ∷ w) v (((c ∷ u) ++ (a ∷ w)) ++ (v ++ more)) lasts in
    let here : after_word ((a ∷ w) ++ v) ((c ∷ u) ++ ((a ∷ w) ++ (v ++ more))) ≡ none =
      ap (after_word ((a ∷ w) ++ v)) (sym (append_assoc (c ∷ u) (a ∷ w) (v ++ more))) ∙ none_here in
    rw (here, cut-longer a w v u more later) refl

pub cut-more :
    (a : ℕ) (w u more : Text)
    → cut (a ∷ w) (u ++ (a ∷ w)) ≡ some (u, [])
    → cut (a ∷ w) (u ++ ((a ∷ w) ++ more)) ≡ some (u, more)
cut-more a w u more h =
    let longer : cut (a ∷ (w ++ [])) (u ++ ((a ∷ w) ++ more)) ≡ some (u, more) =
      cut-longer a w [] u more h in
    rw (append-nil w) at longer

pub without_commit-end : (t : Text) → without_commit (t ++ lit "\ncommit;\n") ≡ t
unfolding without_commit text_eq lit
without_commit-end [] = refl
without_commit-end (c ∷ t) =
    without_commit-long c (t ++ lit "\ncommit;\n")
      (omega (arith, length-append t (lit "\ncommit;\n")))
    ∙ ap (λ r. c ∷ r) (without_commit-end t)
