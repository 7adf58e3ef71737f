-- ===== src/Text/Regex/Language.antt =====
-- The texts that a regular expression stands for, and the code units that occur in them.
use cliptown_lib_core.Prelude.{
  ℕ, ◌≡◌, refl, ap, Bool, true, false, ◌||◌, ◌⊎◌, inl, inr, [], ◌∷◌, ◌++◌, arith, if◌then◌else◌,
  Bool-cases, All, All-append, All-map, and-eq-true,
}
use cliptown_lib_core.Text.{Text}
use cliptown_lib_core.Text.Regex.{
  Regex, nothing, empty, one, seq, alt, many, nullable, seq', alt', deriv, matches,
}

pub data Matches : Regex → Text → Type 0 where
  at_end : Matches empty []
  unit : {p : ℕ → Bool} {c : ℕ} → p c ≡ true → Matches (one p) (c ∷ [])
  both : {a b : Regex} {s t u : Text} → Matches a s → Matches b t → u ≡ s ++ t → Matches (seq a b) u
  left : {a b : Regex} {s : Text} → Matches a s → Matches (alt a b) s
  right : {a b : Regex} {s : Text} → Matches b s → Matches (alt a b) s
  stop : {a : Regex} → Matches (many a) []
  round :
      {a : Regex} {s t u : Text}
      → Matches a s
      → Matches (many a) t
      → u ≡ s ++ t
      → Matches (many a) u

nullable_sound : (r : Regex) → nullable r ≡ true → Matches r []
unfolding nullable
nullable_sound nothing h = cc
nullable_sound empty h = at_end
nullable_sound (one p) h = cc
nullable_sound (seq a b) h =
    let (ha, hb) = and-eq-true (nullable a) (nullable b) h in
    both (nullable_sound a ha) (nullable_sound b hb) refl
nullable_sound (alt a b) h = elim (Bool-cases (nullable a)) [
  | inl e ↦ left (nullable_sound a e)
  | inr e ↦ right (nullable_sound b (ground arith))
]
nullable_sound (many a) h = stop

seq'-Matches : (a b : Regex) {s : Text} → Matches (seq' a b) s → Matches (seq a b) s
unfolding seq'
seq'-Matches nothing b m = elim m [ ]
seq'-Matches empty b m = m
seq'-Matches (one _) b m = m
seq'-Matches (seq _ _) b m = m
seq'-Matches (alt _ _) b m = m
seq'-Matches (many _) b m = m

alt-Matches : {a b : Regex} {s : Text} → Matches (alt a b) s → Matches a s ⊎ Matches b s
alt-Matches (left m) = inl m
alt-Matches (right m) = inr m

alt'-Matches : (a b : Regex) {s : Text} → Matches (alt' a b) s → Matches a s ⊎ Matches b s
unfolding alt'
alt'-Matches nothing b m = inr m
alt'-Matches a nothing m = inl m
alt'-Matches a b m = alt-Matches m

seq-Matches :
    {a b : Regex} {u : Text}
    → Matches (seq a b) u
    → (s : Text) × (t : Text) × Matches a s × Matches b t × (u ≡ s ++ t)
seq-Matches (both {s} {t} m n e) = (s, t, m, n, e)

empty-Matches : {s : Text} → Matches empty s → s ≡ []
empty-Matches at_end = refl

one_sound :
    (p : ℕ → Bool) (c : ℕ) {s : Text}
    → Matches (if p c then empty else nothing) s
    → Matches (one p) (c ∷ s)
one_sound p c {s} m = elim (Bool-cases (p c)) [
  | inl e ↦ rw (empty-Matches (rw e at m)) (unit e)
  | inr e ↦ from_nothing (rw e at m)
]
  where
    from_nothing : Matches nothing s → Matches (one p) (c ∷ s)
    from_nothing n = elim n [ ]

mutual
  unfolding deriv

  pub deriv_sound : (c : ℕ) (r : Regex) {s : Text} → Matches (deriv c r) s → Matches r (c ∷ s)
  deriv_sound c nothing m = elim m [ ]
  deriv_sound c empty m = elim m [ ]
  deriv_sound c (one p) m = one_sound p c m
  deriv_sound c (seq a b) m = elim (Bool-cases (nullable a)) [
    | inl e ↦ elim (alt'-Matches (seq' (deriv c a) b) (deriv c b) (rw e at m)) [
      | inl n ↦
          let (s, t, ms, mt, same) = seq-Matches (seq'-Matches (deriv c a) b n) in
          both (deriv_sound c a ms) mt (ap (λ u. c ∷ u) same)
      | inr n ↦ both (nullable_sound a e) (deriv_sound c b n) refl
    ]
    | inr e ↦
        let (s, t, ms, mt, same) = seq-Matches (seq'-Matches (deriv c a) b (rw e at m)) in
        both (deriv_sound c a ms) mt (ap (λ u. c ∷ u) same)
  ]
  deriv_sound c (alt a b) m = elim (alt'-Matches (deriv c a) (deriv c b) m) [
    | inl n ↦ left (deriv_sound c a n)
    | inr n ↦ right (deriv_sound c b n)
  ]
  deriv_sound c (many a) m =
      let (s, t, ms, mt, same) = seq-Matches (seq'-Matches (deriv c a) (many a) m) in
      round (deriv_sound c a ms) mt (ap (λ u. c ∷ u) same)

-- What the matcher accepts belongs to the language of the expression.
pub matches_sound : (r : Regex) (s : Text) → matches r s ≡ true → Matches r s
unfolding matches
matches_sound r [] h = nullable_sound r h
matches_sound r (c ∷ s) h = deriv_sound c r (matches_sound (deriv c r) s h)

-- Whether a code unit can stand in a text of the language.
unfoldable pub occurs : Regex → ℕ → Bool
occurs nothing c = false
occurs empty c = false
occurs (one p) c = p c
occurs (seq a b) c = occurs a c || occurs b c
occurs (alt a b) c = occurs a c || occurs b c
occurs (many a) c = occurs a c

or_left : (a b : Bool) → a ≡ true → (a || b) ≡ true
or_left a b h = ground arith

or_right : (a b : Bool) → b ≡ true → (a || b) ≡ true
or_right a b h = ground arith

pub Matches-occurs : {r : Regex} {s : Text} → Matches r s → All (λ c. occurs r c ≡ true) s
unfolding occurs
Matches-occurs at_end = tt
Matches-occurs (unit h) = (h, tt)
Matches-occurs (both {a} {b} {s} {t} m n e) = rw e (
    All-append _ s t (All-map (λ c. or_left (occurs a c) (occurs b c)) s (Matches-occurs m))
      (All-map (λ c. or_right (occurs a c) (occurs b c)) t (Matches-occurs n)))
Matches-occurs (left {a} {b} {s} m) =
    All-map (λ c. or_left (occurs a c) (occurs b c)) s (Matches-occurs m)
Matches-occurs (right {a} {b} {s} m) =
    All-map (λ c. or_right (occurs a c) (occurs b c)) s (Matches-occurs m)
Matches-occurs stop = tt
Matches-occurs (round {a} {s} {t} m n e) =
    rw e (All-append _ s t (Matches-occurs m) (Matches-occurs n))
