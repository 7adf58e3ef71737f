-- ===== src/Text/Equality.antt =====
-- `===` on strings, membership in a list of strings, and lists without repetition.
use cliptown_lib_core.Prelude.{
  ◌≡◌, refl, ◌≢◌, true, false, List, [], ◌∷◌, arith, All, In, Bool-cases, inl, inr,
}
use cliptown_lib_core.Text.{Text, text_eq, is_one_of}

pub text_eq_refl : (s : Text) → text_eq s s ≡ true
unfolding text_eq
text_eq_refl [] = refl
text_eq_refl (c ∷ s) = ground (arith, text_eq_refl s)

pub text_eq→eq : (s t : Text) → text_eq s t ≡ true → s ≡ t
unfolding text_eq
text_eq→eq [] [] h = refl
text_eq→eq [] (b ∷ t) h = cc
text_eq→eq (a ∷ s) [] h = cc
text_eq→eq (a ∷ s) (b ∷ t) h = ground (arith, text_eq→eq s t)

pub text_eq-false : (s t : Text) → text_eq s t ≡ false → s ≢ t
text_eq-false s t h e = let same : text_eq s s ≡ false = rw (← e) at h in cc (text_eq_refl s)

-- Some element of the list is the text.
abbrev pub IsIn : Text → List Text → Type 0
IsIn s ts = In s ts

pub is_one_of→IsIn : (s : Text) (ts : List Text) → is_one_of s ts ≡ true → IsIn s ts
unfolding is_one_of
is_one_of→IsIn s [] h = absurd (cc)
is_one_of→IsIn s (t ∷ ts) h = elim (Bool-cases (text_eq s t)) [
  | inl e ↦ inl (text_eq→eq s t e)
  | inr e ↦ inr (is_one_of→IsIn s ts (ground arith))
]

pub not_one_of : (s : Text) (ts : List Text) → is_one_of s ts ≡ false → All (λ t. s ≢ t) ts
unfolding is_one_of
not_one_of s [] h = tt
not_one_of s (t ∷ ts) h =
    let differs : text_eq s t ≡ false = ground arith in
    (text_eq-false s t differs, not_one_of s ts (ground arith))

-- No text stands twice in the list.
abbrev pub Distinct : List Text → Type 0
Distinct [] = Unit
Distinct (s ∷ ss) = All (λ t. s ≢ t) ss × Distinct ss
