-- ===== src/Embeddings/Spelling.antt =====
-- scripts/embeddings/generate.mjs: the helpers that spell names and lists.
use cliptown_lib_core.Prelude.{
  ℕ, zero, suc, ◌+◌, ◌-◌, Bool, true, false, not, ◌&&◌, ◌||◌, List, [], ◌∷◌, ◌++◌, map, ltb, ◌==◌,
  if◌then◌else◌, length,
}
use cliptown_lib_core.Text.{Text, lit, join, digits, is_blank, is_lower, is_digit, upper_char}

unfoldable pub quoted : Text → Text
quoted x = b'\'' ∷ x ++ b'\'' ∷ []

-- `sqlList`.
unfoldable pub sql_list : List Text → Text
unfolding quoted join lit
sql_list xs = join (lit ", ") (map quoted xs)

-- `' '.repeat(n)`.
unfoldable pub spaces : ℕ → Text
spaces zero = []
spaces (suc n) = b' ' ∷ spaces n

-- The lines of `wrapList`, from the line so far.
unfoldable pub wrap_lines : (indent width : ℕ) → Text → List Text → List Text
unfolding is_blank lit
wrap_lines indent width line [] = if is_blank line then [] else line ∷ []
wrap_lines indent width line (piece ∷ pieces) =
    let full = not (is_blank line) && ltb width (indent + length line + length piece + 2) in
    let line' = (if is_blank line || full then [] else line ++ lit ", ") ++ piece in
    let rest = wrap_lines indent width line' pieces in if full then line ∷ rest else rest

unfoldable pub indent_rest : ℕ → List Text → List Text
unfolding spaces
indent_rest indent [] = []
indent_rest indent (line ∷ lines) = line ∷ map (λ l. spaces indent ++ l) lines

-- `wrapList`.
unfoldable pub wrap_list : List Text → ℕ → Text
unfolding wrap_lines indent_rest join quoted lit
wrap_list xs indent =
    join (lit ",\n") (indent_rest indent (wrap_lines indent 88 [] (map quoted xs)))

-- The text of lines that each end in a line break.
unfoldable pub unlines : List Text → Text
unlines [] = []
unlines (line ∷ lines) = line ++ 10 ∷ unlines lines

-- `${a - b}`.
unfoldable pub difference : ℕ → ℕ → Text
unfolding digits
difference a b = if ltb a b then b'-' ∷ digits (b - a) else digits (a - b)

-- `' '.repeat(Math.max(1, n - tenant.length))`.
unfoldable pub gap : ℕ → Text → Text
unfolding spaces
gap n name = spaces (if ltb (length name) n then n - length name else 1)

-- `text ? text + '\n' : ''`.
unfoldable pub ending : Text → Text
unfolding is_blank
ending text = if is_blank text then [] else text ++ 10 ∷ []

-- The replacements of `camel`; the flag tells of an underscore before, which is not printed yet.
unfoldable pub camel_from : Bool → Text → Text
unfolding is_lower upper_char
camel_from before [] = if before then b'_' ∷ [] else []
camel_from before (c ∷ s) =
    let rest = camel_from (c == b'_') s in
    let hump = before && is_lower c in
    (if before && not (is_lower c) then b'_' ∷ [] else [])
    ++ (if c == b'_' then [] else (if hump then upper_char c else c) ∷ [])
    ++ rest

-- `s.replace(/_([a-z])/g, (_, c) => c.toUpperCase())`.
unfoldable pub camel : Text → Text
unfolding camel_from
camel s = camel_from false s

-- `/[a-z0-9]/`.
unfoldable pub is_small : ℕ → Bool
unfolding is_lower is_digit
is_small c = is_lower c || is_digit c

-- The replacements of `pascal`: whether this is the start, and the separator before, which is not
-- printed yet.
unfoldable pub pascal_from : Bool → Text → Text → Text
unfolding is_small upper_char is_blank
pascal_from first held [] = held
pascal_from first held (c ∷ s) =
    let separates = c == b'_' || c == b'-' in
    let rest = pascal_from false (if separates then c ∷ [] else []) s in
    (if is_small c && (first || not (is_blank held))
      then upper_char c ∷ []
      else if separates
      then held
      else held ++ c ∷ [])
    ++ rest

-- `s.replace(/(^|[_-])([a-z0-9])/g, (_, __, c) => c.toUpperCase())`.
unfoldable pub pascal : Text → Text
unfolding pascal_from
pascal s = pascal_from true [] s

-- `s.replace(/s$/, '')`.
unfoldable pub without_s : Text → Text
without_s [] = []
without_s (c ∷ []) = if c == b's' then [] else c ∷ []
without_s (c ∷ d ∷ s) = c ∷ without_s (d ∷ s)
