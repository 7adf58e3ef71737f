-- ===== src/DesiredSql/Semicolons.antt =====
-- scripts/verify-desired-sql-v3.mjs: the opener of a DO block holds no semicolon.
use cliptown_lib_core.Prelude.{
  ℕ, ◌≡◌, refl, sym, ap, ◌∙◌, inl, inr, true, false, [], ◌∷◌, Option, none, some, ◌==◌, any, arith,
  Bool-cases,
}
use cliptown_lib_core.Text.{Text, lit, is_space, is_alpha, is_lower, is_upper, lower_char}
use cliptown_lib_core.DesiredSql.{do_begin, has_semicolon}
use cliptown_lib_core.DesiredSql.Patterns.{
  ◌>>=◌, any_case, skip_spaces, spaces, unit, span, is_tag, dollar_tag,
}

pub space-not_semicolon : (c : ℕ) → is_space c ≡ true → (c == b';') ≡ false
unfolding is_space
space-not_semicolon c h = ground arith

pub tag-not_semicolon : (c : ℕ) → is_tag c ≡ true → (c == b';') ≡ false
unfolding is_tag is_alpha is_lower is_upper
tag-not_semicolon c h = ground arith

pub word-not_semicolon :
    (a c : ℕ) → (a == b';') ≡ false → (a == lower_char c) ≡ true → (c == b';') ≡ false
unfolding lower_char is_upper
word-not_semicolon a c n h = ground arith

-- A pattern that takes no semicolon.
pub any_case-has_semicolon :
    (word s rest : Text)
    → has_semicolon word ≡ false
    → any_case word s ≡ some rest
    → has_semicolon rest ≡ false
    → has_semicolon s ≡ false
unfolding any_case has_semicolon any lower_char is_upper
any_case-has_semicolon [] s rest w e h = let same : s ≡ rest = cc in rw same h
any_case-has_semicolon (a ∷ word) [] rest w e h = refl
any_case-has_semicolon (a ∷ word) (c ∷ s) rest w e h = elim (Bool-cases (a == lower_char c)) [
  | inl f ↦
      let later : any_case word s ≡ some rest = rw f at e in
      let here : (a == b';') ≡ false = ground arith in
      let others : has_semicolon word ≡ false = ground arith in
      rw (word-not_semicolon a c here f) (any_case-has_semicolon word s rest others later h)
  | inr f ↦ let never : none ≡ some rest = rw f at e in absurd cc
]

pub skip_spaces-has_semicolon : (s : Text) → has_semicolon (skip_spaces s) ≡ has_semicolon s
unfolding skip_spaces has_semicolon any is_space
skip_spaces-has_semicolon [] = refl
skip_spaces-has_semicolon (c ∷ s) = elim (Bool-cases (is_space c)) [
  | inl e ↦ rw (e, space-not_semicolon c e) (skip_spaces-has_semicolon s)
  | inr e ↦ rw e refl
]

pub span-has_semicolon : (s : Text) → has_semicolon (span is_tag s).1 ≡ has_semicolon s
unfolding span has_semicolon any is_tag is_alpha
span-has_semicolon [] = refl
span-has_semicolon (c ∷ s) = elim (Bool-cases (is_tag c)) [
  | inl e ↦ rw (e, tag-not_semicolon c e) (span-has_semicolon s)
  | inr e ↦ rw e refl
]

pub some-eq-some : {A : Type 0} (a b : A) → some a ≡ some b → a ≡ b
some-eq-some a b h = cc

pub bind-eq-some :
    {A B : Type 0} (o : Option A) (f : A → Option B) (b : B)
    → (o >>= f) ≡ some b
    → (a : A) × (o ≡ some a) × (f a ≡ some b)
bind-eq-some none f b h = absurd cc
bind-eq-some (some a) f b h = (a, refl, h)

pub spaces-has_semicolon :
    (s rest : Text) → spaces s ≡ some rest → has_semicolon rest ≡ false → has_semicolon s ≡ false
unfolding spaces has_semicolon any
spaces-has_semicolon [] rest e h = refl
spaces-has_semicolon (c ∷ s) rest e h = elim (Bool-cases (is_space c)) [
  | inl f ↦
      let found : some (skip_spaces s) ≡ some rest = rw f at e in
      let same : skip_spaces s ≡ rest = cc in
      let clean : has_semicolon (skip_spaces s) ≡ false = rw same h in
      rw (space-not_semicolon c f) (sym (skip_spaces-has_semicolon s) ∙ clean)
  | inr f ↦ let never : none ≡ some rest = rw f at e in absurd cc
]

pub dollar-has_semicolon :
    (s rest : Text) → unit b'$' s ≡ some rest → has_semicolon s ≡ has_semicolon rest
unfolding unit has_semicolon any
dollar-has_semicolon [] rest e = absurd cc
dollar-has_semicolon (c ∷ s) rest e = elim (Bool-cases (c == b'$')) [
  | inl f ↦
      let found : some s ≡ some rest = rw f at e in
      let same : s ≡ rest = cc in
      let other : (c == b';') ≡ false = ground arith in rw other (ap has_semicolon same)
  | inr f ↦ let never : none ≡ some rest = rw f at e in absurd cc
]

pub dollar_tag-has_semicolon :
    (s : Text) (found : Text × Text)
    → dollar_tag s ≡ some found
    → has_semicolon s ≡ has_semicolon found.1
unfolding dollar_tag
dollar_tag-has_semicolon s found e =
    let (inside, first, e') = bind-eq-some (unit b'$' s) _ found e in
    let (rest, last, e'') = bind-eq-some (unit b'$' (span is_tag inside).1) _ found e' in
    let same : rest ≡ found.1 = ap (λ (f : Text × Text). f.1) (some-eq-some _ found e'') in
    dollar-has_semicolon s inside first
    ∙ sym (span-has_semicolon inside)
    ∙ dollar-has_semicolon (span is_tag inside).1 rest last
    ∙ ap has_semicolon same

pub do_begin-has_semicolon :
    (s rest : Text) → do_begin s ≡ some rest → has_semicolon rest ≡ false → has_semicolon s ≡ false
unfolding do_begin has_semicolon any lit
do_begin-has_semicolon s rest e h =
    let (a, word, e₁) = bind-eq-some (any_case (lit "do") s) _ rest e in
    let (b, gap, e₂) = bind-eq-some (spaces a) _ rest e₁ in
    let (c, tag, e₃) = bind-eq-some (dollar_tag b) _ rest e₂ in
    let skipped = any_case-has_semicolon (lit "begin") (skip_spaces c.1) rest refl e₃ h in
    let behind = sym (skip_spaces-has_semicolon c.1) ∙ skipped in
    any_case-has_semicolon (lit "do") s a refl word
      (spaces-has_semicolon a b gap (dollar_tag-has_semicolon b c tag ∙ behind))
