-- ===== src/Text/Replace.antt =====
-- `String.prototype.replace` with a global pattern of fixed width, and the ends of strings.
use mathlib.Core.List.{reverse}
use cliptown_lib_core.Prelude.{ℕ, zero, suc, ◌-◌, Bool, [], ◌∷◌, ◌++◌, if◌then◌else◌, length}
use cliptown_lib_core.Text.{Text, starts_with}

-- At each place where `hit` accepts the rest of the text, `width` units give `new`. The counter
-- holds how many units of the last match are still to be passed over.
unfoldable pub replace_at : (Text → Bool) → ℕ → Text → ℕ → Text → Text
replace_at hit width new skip [] = []
replace_at hit width new (suc skip) (c ∷ s) = replace_at hit width new skip s
replace_at hit width new zero (c ∷ s) =
    let found = hit (c ∷ s) in
    (if found then new else c ∷ []) ++ replace_at hit width new (if found then width - 1 else 0) s

-- `s.replace(/old/g, new)` for a literal `old`.
unfoldable pub replace_text : Text → Text → Text → Text
unfolding replace_at starts_with
replace_text old new s = replace_at (λ rest. starts_with rest old) (length old) new 0 s

unfoldable pub ends_with : Text → Text → Bool
unfolding starts_with
ends_with s t = starts_with (reverse s) (reverse t)

-- `s.slice(0, -1)`.
unfoldable pub drop_last : Text → Text
drop_last [] = []
drop_last (c ∷ []) = []
drop_last (c ∷ d ∷ s) = c ∷ drop_last (d ∷ s)
