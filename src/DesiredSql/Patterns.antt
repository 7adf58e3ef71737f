-- ===== src/DesiredSql/Patterns.antt =====
-- scripts/verify-desired-sql-v3.mjs: the regular expressions, each as the text behind its match. The
-- flag `i` is followed for ASCII letters, the only ones that the patterns name.
use cliptown_lib_core.Prelude.{
  ℕ, Bool, ◌||◌, [], ◌∷◌, ◌++◌, Option, none, some, ◌==◌, if◌then◌else◌, get_or,
}
use cliptown_lib_core.Text.{Text, lit, is_space, is_word, is_alpha, is_blank, lower_char}

infixl 5 ◌>>=◌
abbrev pub ◌>>=◌ {ℓ κ} : {A : Type ℓ} {B : Type κ} (o : Option A) (f : A → Option B) → Option B
none >>= f = none
some a >>= f = f a

-- A literal word with the flag `i`; the word is given in lower case.
unfoldable pub any_case : Text → Text → Option Text
unfolding lower_char
any_case [] s = some s
any_case (a ∷ word) [] = none
any_case (a ∷ word) (c ∷ s) = let rest = any_case word s in if a == lower_char c then rest else none

-- `\s*`.
unfoldable pub skip_spaces : Text → Text
unfolding is_space
skip_spaces [] = []
skip_spaces (c ∷ s) = if is_space c then skip_spaces s else c ∷ s

-- `\s+`.
unfoldable pub spaces : Text → Option Text
unfolding skip_spaces is_space
spaces [] = none
spaces (c ∷ s) = if is_space c then some (skip_spaces s) else none

-- One unit.
unfoldable pub unit : ℕ → Text → Option Text
unit a [] = none
unit a (c ∷ s) = if c == a then some s else none

-- The longest run of a class, and what stands behind it.
unfoldable pub span : (ℕ → Bool) → Text → Text × Text
span test [] = ([], [])
span test (c ∷ s) = let rest = span test s in if test c then (c ∷ rest.0, rest.1) else ([], c ∷ s)

-- The same for a run that is not empty.
unfoldable pub run_of : (ℕ → Bool) → Text → Option (Text × Text)
unfolding span is_blank
run_of test s = if is_blank (span test s).0 then none else some (span test s)

-- `[A-Za-z_]`.
unfoldable pub is_tag : ℕ → Bool
unfolding is_alpha
is_tag c = is_alpha c || c == b'_'

-- `\$[A-Za-z_]*\$`: the tag and what stands behind it.
unfoldable pub dollar_tag : Text → Option (Text × Text)
unfolding unit span is_tag
dollar_tag s = do
  inside ← unit b'$' s
  rest ← unit b'$' (span is_tag inside).1
  some (b'$' ∷ (span is_tag inside).0 ++ b'$' ∷ [], rest)

-- `(?:OR\s+REPLACE\s+)?`.
unfoldable pub or_replace : Text → Text
unfolding any_case spaces lit
or_replace s =
    get_or (do a ← any_case (lit "or") s; b ← spaces a; c ← any_case (lit "replace") b; spaces c) s

-- `AS\s+(\$[A-Za-z_]*\$)`.
unfoldable pub as_tag : Text → Option (Text × Text)
unfolding any_case spaces dollar_tag lit
as_tag s = do a ← any_case (lit "as") s; b ← spaces a; dollar_tag b

-- What a match of the pattern of `sqlFunctionBodies` captures, with the text behind it.
pub record Header : Type 0 where
  pub name : Text
  pub preamble : Text
  pub tag : Text
  pub rest : Text

-- The lazy `([\s\S]*?)AS…`: one step, and the search for the first place.
unfoldable pub preamble_at :
    ℕ → Option (Text × Text) → Option (Text × Text × Text) → Option (Text × Text × Text)
preamble_at c (some (tag, rest)) later = some ([], tag, rest)
preamble_at c none (some (preamble, tag, rest)) = some (c ∷ preamble, tag, rest)
preamble_at c none none = none

unfoldable pub find_as : Text → Option (Text × Text × Text)
unfolding preamble_at as_tag
find_as [] = none
find_as (c ∷ s) = preamble_at c (as_tag (c ∷ s)) (find_as s)

-- `\)\s*RETURNS([\s\S]*?)AS…` at a unit.
unfoldable pub returns_at : ℕ → Text → Option (Text × Text × Text)
unfolding any_case skip_spaces find_as lit
returns_at c s = if c == b')' then (any_case (lit "returns") (skip_spaces s) >>= find_as) else none

unfoldable pub or_later : {A : Type 0} → Option A → Option A → Option A
or_later none later = later
or_later (some a) later = some a

-- The lazy list of parameters.
unfoldable pub find_returns : Text → Option (Text × Text × Text)
unfolding or_later returns_at
find_returns [] = none
find_returns (c ∷ s) = or_later (returns_at c s) (find_returns s)

-- `[\w".]`.
unfoldable pub is_name : ℕ → Bool
unfolding is_word
is_name c = is_word c || c == b'"' || c == b'.'

-- The pattern of `sqlFunctionBodies` at the start of a text.
unfoldable pub function_header : Text → Option Header
unfolding any_case spaces or_replace run_of is_name skip_spaces unit find_returns lit
function_header s = do
  a ← any_case (lit "create") s
  b ← spaces a
  c ← any_case (lit "function") (or_replace b)
  d ← spaces c
  named ← run_of is_name d
  parameters ← unit b'(' (skip_spaces named.1)
  found ← find_returns parameters
  some (record { name = named.0; preamble = found.0; tag = found.1; rest = found.2 })
