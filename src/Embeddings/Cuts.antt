-- ===== src/Embeddings/Cuts.antt =====
-- scripts/embeddings/generate.mjs: what `indexOf`, `split` and `replace` find of a word in a text.
pub mod First
use cliptown_lib_core.Prelude.{
  ℕ, ◌<◌, ◌≤◌, ◌≡◌, refl, sym, ap, ◌∙◌, inl, inr, List, [], ◌∷◌, ◌++◌, ◌==◌, none, some, length, In,
  Bool-cases, Option-cases, arith, append_assoc, length-append, ==_refl, ==_iff, ap₂,
}
use cliptown_lib_core.Text.{Text, lit, text_eq}
use cliptown_lib_core.Text.Equality.{text_eq→eq}
use cliptown_lib_core.Embeddings.Spelling.{unlines}
use cliptown_lib_core.Embeddings.Postgres.{split_mark, without_commit}
use cliptown_lib_core.Text.Cut.{after_word, cut_at, cut}

pub after_word-append : (word s : Text) → after_word word (word ++ s) ≡ some s
unfolding after_word
after_word-append [] s = refl
after_word-append (a ∷ word) s = rw (==_refl a) (after_word-append word s)

pub after_word-eq-some : (word s rest : Text) → after_word word s ≡ some rest → s ≡ word ++ rest
unfolding after_word
after_word-eq-some [] s rest h = cc
after_word-eq-some (a ∷ word) [] rest h = cc
after_word-eq-some (a ∷ word) (c ∷ s) rest h = elim (Bool-cases (a == c)) [
  | inl e ↦
      let later : after_word word s ≡ some rest = rw e at h in
      ap₂ (λ b t. b ∷ t) (sym ((==_iff a c).0 e)) (after_word-eq-some word s rest later)
  | inr e ↦ let never : none ≡ some rest = rw e at h in absurd cc
]

-- Where a text begins with a word that is no longer than `u`, the rest keeps what stands behind `u`.
pub append-behind :
    (word rest u y : Text)
    → length word ≤ length u
    → word ++ rest ≡ u ++ y
    → (z : Text) × (rest ≡ z ++ y)
append-behind [] rest u y l h = (u, h)
append-behind (a ∷ word) rest [] y l h = absurd (omega (arith, l))
append-behind (a ∷ word) rest (b ∷ u) y l h = append-behind word rest u y (omega (arith, l)) cc

-- The first occurrence of a word stands no later than any other.
pub cut-append :
    (a : ℕ) (word x y : Text)
    → (before : Text) × (z : Text) × (cut (a ∷ word) (x ++ ((a ∷ word) ++ y))
        ≡ some (before, z ++ y))
unfolding cut cut_at
cut-append a word [] y = ([], [], rw (after_word-append (a ∷ word) y) refl)
cut-append a word (c ∷ x) y =
    let s = c ∷ (x ++ ((a ∷ word) ++ y)) in
    elim (Option-cases (after_word (a ∷ word) s)) [
      | inl e ↦ let (before, z, h) = cut-append a word x y in (c ∷ before, z, rw (e, h) refl)
      | inr (rest, e) ↦
          let (z, h) =
            append-behind (a ∷ word) rest ((c ∷ x) ++ (a ∷ word)) y
              (omega (arith, length-append x (a ∷ word)))
              (sym (after_word-eq-some (a ∷ word) s rest e)
                ∙ sym (append_assoc (c ∷ x) (a ∷ word) y)) in
          ([], z, rw e (ap (λ r. some ([], r)) h))
    ]

length-mark : length split_mark ≡ 18
unfolding lit
length-mark = refl

-- A text longer than the pattern keeps its first unit.
pub without_commit-long :
    (c : ℕ) (s : Text) → 9 < length (c ∷ s) → without_commit (c ∷ s) ≡ c ∷ without_commit s
unfolding without_commit lit
without_commit-long c s l = elim (Bool-cases (text_eq (c ∷ s) (lit "\ncommit;\n"))) [
  | inl e ↦
      let long = ap length (text_eq→eq (c ∷ s) (lit "\ncommit;\n") e) in
      absurd (omega (arith, l, long))
  | inr e ↦ elim (Bool-cases (text_eq (c ∷ s) (lit "\ncommit;"))) [
    | inl f ↦
        let long = ap length (text_eq→eq (c ∷ s) (lit "\ncommit;") f) in
        absurd (omega (arith, l, long))
    | inr f ↦ rw (e, f) refl
  ]
]

-- The sentinel and what stands before it stay.
pub without_commit-mark :
    (u rest : Text)
    → without_commit (u ++ (split_mark ++ rest)) ≡ u ++ (split_mark ++ without_commit rest)
unfolding without_commit text_eq lit
without_commit-mark [] rest = refl
without_commit-mark (c ∷ u) rest =
    without_commit-long c (u ++ (split_mark ++ rest)) (
      omega
        (arith, length-append u (split_mark ++ rest), length-append split_mark rest, length-mark))
    ∙ ap (λ t. c ∷ t) (without_commit-mark u rest)

pub unlines-append : (ls ks : List Text) → unlines (ls ++ ks) ≡ unlines ls ++ unlines ks
unfolding unlines
unlines-append [] ks = refl
unlines-append (l ∷ ls) ks =
    ap (λ t. l ++ 10 ∷ t) (unlines-append ls ks)
    ∙ sym (append_assoc l (10 ∷ unlines ls) (unlines ks))

-- A line stands in the text of its lines.
pub unlines-In :
    (l : Text) (ls : List Text) → In l ls → (x : Text) × (y : Text) × (unlines ls ≡ x ++ (l ++ y))
unfolding unlines
unlines-In l [] h = elim h [ ]
unlines-In l (k ∷ ls) (inl e) = ([], 10 ∷ unlines ls, rw e refl)
unlines-In l (k ∷ ls) (inr h) =
    let (x, y, e) = unlines-In l ls h in
    (k ++ 10 ∷ x, y, ap (λ t. k ++ 10 ∷ t) e ∙ sym (append_assoc k (10 ∷ x) (l ++ y)))
