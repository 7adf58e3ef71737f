-- ===== src/Embeddings/Wrapping.antt =====
-- scripts/embeddings/generate.mjs, `wrapList`: how long the lines are, and that they hold
-- the list that `sqlList` prints.
use cliptown_lib_core.Prelude.{
  ℕ, ◌+◌, ◌≤◌, ◌≡◌, ◌≢◌, refl, sym, ap, ◌∙◌, inl, inr, List, [], ◌∷◌, ◌++◌, map, ltb, length, All,
  Bool-cases, append_assoc,
}
use cliptown_lib_core.Text.{Text, lit, join, is_blank}
use cliptown_lib_core.Embeddings.Spelling.{wrap_lines, quoted, sql_list}

-- With the indentation the text is no wider than that.
abbrev pub Fits : (indent width : ℕ) → Text → Type 0
Fits indent width l = indent + length l ≤ width

-- The lines with a comma behind each but the last.
unfoldable pub comma_lines : List Text → List Text
comma_lines [] = []
comma_lines (l ∷ []) = l ∷ []
comma_lines (l ∷ k ∷ ls) = (l ++ b',' ∷ []) ∷ comma_lines (k ∷ ls)

-- The first line is printed behind the indentation, and the others begin with it.
abbrev pub FitPrinted : (indent width : ℕ) → List Text → Type 0
FitPrinted indent width [] = Unit
FitPrinted indent width (l ∷ ls) =
    (indent + length l ≤ width) × All (λ (k : Text). length k ≤ width) ls

wrap_lines-nonempty :
    (indent width c : ℕ) (l : Text) (pieces : List Text)
    → wrap_lines indent width (c ∷ l) pieces ≢ []
unfolding wrap_lines is_blank
wrap_lines-nonempty indent width c l [] = λ h. cc
wrap_lines-nonempty indent width c l (piece ∷ pieces) =
    elim (Bool-cases (ltb width (indent + length (c ∷ l) + length piece + 2))) [
      | inl e ↦ rw e (λ h. cc)
      | inr e ↦ rw e (wrap_lines-nonempty indent width c (l ++ lit ", " ++ piece) pieces)
    ]

join-cons : (sep s : Text) (ls : List Text) → ls ≢ [] → join sep (s ∷ ls) ≡ s ++ sep ++ join sep ls
unfolding join
join-cons sep s [] h = absurd (h refl)
join-cons sep s (l ∷ ls) h = refl

join-merge :
    (sep s t : Text) (ls : List Text) → join sep ((s ++ sep ++ t) ∷ ls) ≡ join sep (s ∷ t ∷ ls)
unfolding join
join-merge sep s t [] = refl
join-merge sep s t (l ∷ ls) =
    let rest = join sep (l ∷ ls) in
    append_assoc (s ++ sep ++ t) sep rest
    ∙ append_assoc (s ++ sep) t (sep ++ rest)
    ∙ ap (λ u. s ++ sep ++ u) (sym (append_assoc t sep rest))

join-wrap_lines :
    (indent width c : ℕ) (l : Text) (xs : List Text)
    → join (lit ", ") (wrap_lines indent width (c ∷ l) (map quoted xs))
      ≡ join (lit ", ") ((c ∷ l) ∷ map quoted xs)
unfolding wrap_lines is_blank quoted join
join-wrap_lines indent width c l [] = refl
join-wrap_lines indent width c l (x ∷ xs) =
    elim (Bool-cases (ltb width (indent + length (c ∷ l) + length (quoted x) + 2))) [
      | inl e ↦ rw e (
          join-cons (lit ", ") (c ∷ l) _
            (wrap_lines-nonempty indent width b'\'' (x ++ b'\'' ∷ []) (map quoted xs))
          ∙ ap (λ t. (c ∷ l) ++ lit ", " ++ t)
              (join-wrap_lines indent width b'\'' (x ++ b'\'' ∷ []) xs))
      | inr e ↦ rw e (
          join-wrap_lines indent width c (l ++ lit ", " ++ quoted x) xs
          ∙ join-merge (lit ", ") (c ∷ l) (quoted x) (map quoted xs))
    ]

-- Joined without line breaks, the lines of `wrapList` are what `sqlList` prints.
pub join-wrap_lines-sql_list :
    (indent width : ℕ) (xs : List Text)
    → join (lit ", ") (wrap_lines indent width [] (map quoted xs)) ≡ sql_list xs
unfolding wrap_lines sql_list is_blank quoted
join-wrap_lines-sql_list indent width [] = refl
join-wrap_lines-sql_list indent width (x ∷ xs) =
    join-wrap_lines indent width b'\'' (x ++ b'\'' ∷ []) xs
