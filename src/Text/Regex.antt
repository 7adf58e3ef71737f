-- ===== src/Text/Regex.antt =====
-- Anchored regular expressions, matched by derivatives: after one code unit, `deriv` is what the
-- rest of the text has to match.
pub mod Language
use cliptown_lib_core.Prelude.{ℕ, Bool, true, false, ◌&&◌, ◌||◌, [], ◌∷◌, if◌then◌else◌, ◌==◌}
use cliptown_lib_core.Text.{Text}

pub data Regex : Type 0 where
  nothing empty : Regex
  one : (ℕ → Bool) → Regex
  seq alt : Regex → Regex → Regex
  many : Regex → Regex

-- `r+`, `r?` and a single code unit.
abbrev pub some_of : Regex → Regex
some_of r = seq r (many r)

abbrev pub optional : Regex → Regex
optional r = alt empty r

abbrev pub char : ℕ → Regex
char c = one (λ d. d == c)

unfoldable pub nullable : Regex → Bool
nullable nothing = false
nullable empty = true
nullable (one p) = false
nullable (seq a b) = nullable a && nullable b
nullable (alt a b) = nullable a || nullable b
nullable (many a) = true

-- Sequence and choice, with `nothing` dropped.
unfoldable pub seq' : Regex → Regex → Regex
seq' nothing b = nothing
seq' a b = seq a b

unfoldable pub alt' : Regex → Regex → Regex
alt' nothing b = b
alt' a nothing = a
alt' a b = alt a b

unfoldable pub deriv : ℕ → Regex → Regex
unfolding nullable seq' alt'
deriv c nothing = nothing
deriv c empty = nothing
deriv c (one p) = if p c then empty else nothing
deriv c (seq a b) = if nullable a then alt' (seq' (deriv c a) b) (deriv c b) else seq' (deriv c a) b
deriv c (alt a b) = alt' (deriv c a) (deriv c b)
deriv c (many a) = seq' (deriv c a) (many a)

-- `/^(?:r)$/.test(s)`.
unfoldable pub matches : Regex → Text → Bool
unfolding deriv nullable
matches r [] = nullable r
matches r (c ∷ s) = matches (deriv c r) s
