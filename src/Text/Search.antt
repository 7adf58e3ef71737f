-- ===== src/Text/Search.antt =====
-- Substrings: what `includes` decides.
use cliptown_lib_core.Prelude.{◌≡◌, refl, ◌≢◌, true, false, [], ◌∷◌, ◌++◌, arith}
use cliptown_lib_core.Text.{Text, starts_with, includes}

-- `t` stands nowhere in `s`.
abbrev pub Avoids : Text → Text → Type 0
Avoids s t = (a b : Text) → s ≢ a ++ t ++ b

starts_with_append : (t b : Text) → starts_with (t ++ b) t ≡ true
unfolding starts_with
starts_with_append [] [] = refl
starts_with_append [] (_ ∷ _) = refl
starts_with_append (c ∷ t) b = ground (arith, starts_with_append t b)

includes_append : (a t b : Text) → includes (a ++ t ++ b) t ≡ true
unfolding includes
includes_append [] [] [] = starts_with_append [] []
includes_append [] [] (c ∷ b) = ground (arith, starts_with_append [] (c ∷ b))
includes_append [] (c ∷ t) b = ground (arith, starts_with_append (c ∷ t) b)
includes_append (c ∷ a) t b = ground (arith, includes_append a t b)

pub includes-Avoids : (s t : Text) → includes s t ≡ false → Avoids s t
includes-Avoids s t h a b e = cc (includes_append a t b)
