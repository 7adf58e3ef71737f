-- ===== src/SqlGuard/Grammar.antt =====
-- What a well-formed SQL expression fragment is, without a scanner: its string literals are whole,
-- its parentheses nest, and no comma stands outside them.
use cliptown_lib_core.Prelude.{
  arith, ℕ, zero, suc, ◌≡◌, refl, ◌≢◌, Bool, true, false, [], ◌∷◌, ◌++◌, append_assoc, ap,
}
use cliptown_lib_core.Text.{Text, replace_all}

-- The body of a string literal: each quote of the content is doubled.
abbrev pub escape : Text → Text
escape s = replace_all b'\'' (b'\'' ∷ b'\'' ∷ []) s

abbrev pub NotQuoteAhead : Text → Type 0
NotQuoteAhead [] = Unit
NotQuoteAhead (c ∷ s) = c ≢ b'\''

pub escape-nil : escape [] ≡ []
unfolding replace_all
escape-nil = refl

pub escape-quote : (s : Text) → escape (b'\'' ∷ s) ≡ b'\'' ∷ b'\'' ∷ escape s
unfolding replace_all
escape-quote s = refl

pub escape-other : (c : ℕ) (s : Text) → c ≢ b'\'' → escape (c ∷ s) ≡ c ∷ escape s
unfolding replace_all
escape-other c s h = ground arith

-- `Lexes s u`: `s` is code units and whole literals, and `u` is `s` with each literal's content
-- dropped.
pub data Lexes : Text → Text → Type 0 where
  done : Lexes [] []
  plain : {c : ℕ} {s u : Text} → c ≢ b'\'' → Lexes s u → Lexes (c ∷ s) (c ∷ u)
  literal :
      (content rest : Text) {s u : Text}
      → s ≡ escape content ++ b'\'' ∷ rest
      → NotQuoteAhead rest
      → Lexes rest u
      → Lexes (b'\'' ∷ s) (b'\'' ∷ b'\'' ∷ u)

abbrev pub IsOrdinary : Bool → ℕ → Type 0
IsOrdinary top c = (c ≢ b'(') × (c ≢ b')') × (top ≡ true → c ≢ b',')

-- `Balanced top u`: the parentheses of `u` nest; at the top level no comma stands outside them.
pub data Balanced : Bool → Text → Type 0 where
  nothing : {top : Bool} → Balanced top []
  ordinary :
      {top : Bool} {c : ℕ} {u : Text} → IsOrdinary top c → Balanced top u → Balanced top (c ∷ u)
  group :
      {top : Bool} {inner u v : Text}
      → Balanced false inner
      → Balanced top u
      → v ≡ inner ++ b')' ∷ u
      → Balanced top (b'(' ∷ v)

-- The rest of a balanced text below `d` open parentheses.
abbrev pub Levels : ℕ → Text → Type 0
Levels zero u = Balanced true u
Levels (suc d) u =
    (inner : Text) × (rest : Text) × Balanced false inner
    × Levels d rest
    × (u ≡ inner ++ b')' ∷ rest)

abbrev pub is_top : ℕ → Bool
is_top zero = true
is_top (suc d) = false

pub Levels-ordinary : (d c : ℕ) (u : Text) → IsOrdinary (is_top d) c → Levels d u → Levels d (c ∷ u)
Levels-ordinary zero c u o h = ordinary o h
Levels-ordinary (suc d) c u o (inner, rest, bal, h, e) =
    (c ∷ inner, rest, ordinary o bal, h, ap (λ t. c ∷ t) e)

pub Levels-open : (d : ℕ) (u : Text) → Levels (suc d) u → Levels d (b'(' ∷ u)
Levels-open zero u (inner, rest, bal, h, e) = group bal h e
Levels-open (suc d) u (inner, rest, bal, (inner', rest', bal', h, e'), e) = (
  b'(' ∷ inner ++ b')' ∷ inner',
  rest',
  group bal bal' refl,
  h,
  ap (λ t. b'(' ∷ t) (rw (e, e', append_assoc)),
)

pub Levels-close : (d : ℕ) (u : Text) → Levels d u → Levels (suc d) (b')' ∷ u)
Levels-close d u h = ([], u, nothing, h, refl)
