-- ===== src/Names/Snake.antt =====
-- tools/schema-orm/core.mjs, `snakeCase`: the form of its results.
use cliptown_lib_core.Prelude.{
  ℕ, ◌≡◌, ◌≢◌, Bool, true, false, [], ◌∷◌, ◌==◌, arith, All, Bool-cases, inl, inr,
}
use cliptown_lib_core.Text.{Text, is_upper, lower_char, to_lower, squeeze, part_humps}
use cliptown_lib_core.Names.{snake_case, is_separator}

abbrev IsUnderscore : ℕ → Type 0
IsUnderscore c = c ≡ b'_'

-- No underscore begins the text.
abbrev pub NotAhead : Text → Type 0
NotAhead [] = Unit
NotAhead (c ∷ s) = c ≢ b'_'

-- No two underscores follow each other.
abbrev pub IsSqueezed : Text → Type 0
IsSqueezed [] = Unit
IsSqueezed (c ∷ s) = (c ≡ b'_' → NotAhead s) × IsSqueezed s

abbrev is_underscore : ℕ → Bool
is_underscore c = c == b'_'

squeeze-NotAhead : (s : Text) → NotAhead (squeeze is_underscore b'_' true s)
unfolding squeeze
squeeze-NotAhead [] = tt
squeeze-NotAhead (c ∷ s) = elim (Bool-cases (c == b'_')) [
  | inl e ↦ rw e (squeeze-NotAhead s)
  | inr e ↦ rw e (λ same. ground arith)
]

squeeze-IsSqueezed : (before : Bool) (s : Text) → IsSqueezed (squeeze is_underscore b'_' before s)
unfolding squeeze
squeeze-IsSqueezed before [] = tt
squeeze-IsSqueezed true (c ∷ s) = elim (Bool-cases (c == b'_')) [
  | inl e ↦ rw e (squeeze-IsSqueezed true s)
  | inr e ↦ rw e (λ same. absurd (ground arith), squeeze-IsSqueezed false s)
]
squeeze-IsSqueezed false (c ∷ s) = elim (Bool-cases (c == b'_')) [
  | inl e ↦ rw e (λ _. squeeze-NotAhead s, squeeze-IsSqueezed true s)
  | inr e ↦ rw e (λ same. absurd (ground arith), squeeze-IsSqueezed false s)
]

lower_char-underscore : (c : ℕ) → lower_char c ≡ b'_' → c ≡ b'_'
unfolding lower_char is_upper
lower_char-underscore c h = ground arith

to_lower-NotAhead : (s : Text) → NotAhead s → NotAhead (to_lower s)
unfolding to_lower
to_lower-NotAhead [] h = tt
to_lower-NotAhead (c ∷ s) h = λ same. h (lower_char-underscore c same)

to_lower-IsSqueezed : (s : Text) → IsSqueezed s → IsSqueezed (to_lower s)
unfolding to_lower
to_lower-IsSqueezed [] h = tt
to_lower-IsSqueezed (c ∷ s) h =
    (λ same. to_lower-NotAhead s (h.0 (lower_char-underscore c same)), to_lower-IsSqueezed s h.1)

is_upper-lower_char : (c : ℕ) → is_upper (lower_char c) ≡ false
unfolding lower_char is_upper
is_upper-lower_char c = ground arith

to_lower-IsLower : (s : Text) → All (λ c. is_upper c ≡ false) (to_lower s)
unfolding to_lower
to_lower-IsLower [] = tt
to_lower-IsLower (c ∷ s) = (is_upper-lower_char c, to_lower-IsLower s)

-- Whatever the name, its snake case has no upper-case ASCII letter and no two underscores that
-- follow each other.
pub snake_case-IsSqueezed :
    (value : Text)
    → All (λ c. is_upper c ≡ false) (snake_case value) × IsSqueezed (snake_case value)
unfolding snake_case
snake_case-IsSqueezed value = (
  to_lower-IsLower _,
  to_lower-IsSqueezed _
      (squeeze-IsSqueezed false (squeeze is_separator b'_' false (part_humps b'_' value))),
)
