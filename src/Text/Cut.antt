-- ===== src/Text/Cut.antt =====
-- What `indexOf` finds of a word, as what stands before it and behind it.
use cliptown_lib_core.Prelude.{ℕ, ◌∷◌, Option, none, some, if◌then◌else◌, ◌==◌, []}
use cliptown_lib_core.Text.{Text}

-- The text behind a word that it begins with.
unfoldable pub after_word : Text → Text → Option Text
after_word [] s = some s
after_word (a ∷ word) [] = none
after_word (a ∷ word) (c ∷ s) = if a == c then after_word word s else none

-- One step of `cut`: the unit, what stands behind a word at it, and the cut behind it.
unfoldable pub cut_at : ℕ → Option Text → Option (Text × Text) → Option (Text × Text)
cut_at c (some rest) later = some ([], rest)
cut_at c none (some (before, rest)) = some (c ∷ before, rest)
cut_at c none none = none

-- What stands before the first occurrence of a word that is not empty, and behind it.
unfoldable pub cut : Text → Text → Option (Text × Text)
unfolding cut_at after_word
cut word [] = none
cut word (c ∷ s) = cut_at c (after_word word (c ∷ s)) (cut word s)
