-- ===== src/Text.antt =====
-- JavaScript strings as lists of UTF-16 code units, and the string methods that the tools use.
-- Case mapping is that of the ASCII letters: the tools apply it to names, keywords and actions.
pub mod Replace
pub mod Regex
pub mod Search
pub mod Equality
pub mod Cut
use Prim.Native.Char.{code}
use Prim.Native.String.{String}
use mathlib.Core.List.{flat_map}
use cliptown_lib_core.Prelude.{
  ℕ, zero, suc, ◌+◌, ◌-◌, ◌/◌, ◌%◌, ◌≡◌, Bool, true, false, not, ◌&&◌, ◌||◌, List, [], ◌∷◌, ◌++◌,
  map, Option, none, some, ltb, leb, ◌==◌, if◌then◌else◌, any, all,
}

abbrev pub Text : Type 0
Text = List ℕ

-- The code units of an ASCII literal.
unfoldable pub lit : String → Text
lit String.[] = []
lit (String.◌∷◌ c s) = code c ∷ lit s

-- `===` on strings.
unfoldable pub text_eq : Text → Text → Bool
text_eq [] [] = true
text_eq (a ∷ s) (b ∷ t) = (a == b) && text_eq s t
text_eq _ _ = false

unfoldable pub is_one_of : Text → List Text → Bool
unfolding text_eq any
is_one_of s set = any (text_eq s) set

unfoldable pub starts_with : Text → Text → Bool
starts_with s [] = true
starts_with [] (b ∷ t) = false
starts_with (a ∷ s) (b ∷ t) = (a == b) && starts_with s t

-- `s.includes(t)`.
unfoldable pub includes : Text → Text → Bool
unfolding starts_with
includes [] t = starts_with [] t
includes (a ∷ s) t = starts_with (a ∷ s) t || includes s t

unfoldable pub concat : List Text → Text
concat [] = []
concat (s ∷ ss) = s ++ concat ss

-- `parts.join(sep)`.
unfoldable pub join : Text → List Text → Text
join sep [] = []
join sep (s ∷ []) = s
join sep (s ∷ t ∷ ss) = s ++ sep ++ join sep (t ∷ ss)

-- `s.replaceAll(c, t)` for a search string of one code unit.
unfoldable pub replace_all : ℕ → Text → Text → Text
unfolding flat_map
replace_all c t s = flat_map (λ d. if d == c then t else d ∷ []) s

abbrev pub between : ℕ → ℕ → ℕ → Bool
between lo hi c = leb lo c && leb c hi

unfoldable pub is_lower : ℕ → Bool
is_lower c = between b'a' b'z' c

unfoldable pub is_upper : ℕ → Bool
is_upper c = between b'A' b'Z' c

unfoldable pub is_digit : ℕ → Bool
is_digit c = between b'0' b'9' c

unfoldable pub is_alpha : ℕ → Bool
unfolding is_lower is_upper
is_alpha c = is_lower c || is_upper c

unfoldable pub is_alnum : ℕ → Bool
unfolding is_alpha is_digit
is_alnum c = is_alpha c || is_digit c

-- `\w` of a regular expression.
unfoldable pub is_word : ℕ → Bool
unfolding is_alnum
is_word c = is_alnum c || c == b'_'

-- `\s` of a regular expression.
unfoldable pub is_space : ℕ → Bool
is_space c =
    between 9 13 c
    || c == 0x20
    || c == 0xa0
    || c == 0x1680
    || between 0x2000 0x200a c
    || between 0x2028 0x2029 c
    || c == 0x202f
    || c == 0x205f
    || c == 0x3000
    || c == 0xfeff

unfoldable pub lower_char : ℕ → ℕ
unfolding is_upper
lower_char c = if is_upper c then c + 32 else c

unfoldable pub upper_char : ℕ → ℕ
unfolding is_lower
upper_char c = if is_lower c then c - 32 else c

unfoldable pub to_lower : Text → Text
unfolding lower_char
to_lower s = map lower_char s

unfoldable pub to_upper : Text → Text
unfolding upper_char
to_upper s = map upper_char s

-- `/^(?:word)$/i.test(s)`.
unfoldable pub same_ignoring_case : Text → Text → Bool
unfolding to_lower text_eq
same_ignoring_case s word = text_eq (to_lower s) word

unfoldable pub is_blank : Text → Bool
is_blank [] = true
is_blank (c ∷ s) = false

-- `s.replace(/[p]+/g, r)`: each longest run of code units in a class gives one `r`. The first
-- argument tells whether the unit before belongs to the class.
unfoldable pub squeeze : (ℕ → Bool) → ℕ → Bool → Text → Text
squeeze p r before [] = []
squeeze p r before (c ∷ s) =
    (if p c then (if before then [] else r ∷ []) else c ∷ []) ++ squeeze p r (p c) s

-- `s.replace(/([a-z0-9])([A-Z])/g, '$1sep$2')`. The upper-case letter that ends a match cannot
-- begin the next one, so every such pair is parted.
unfoldable pub part_humps : ℕ → Text → Text
unfolding is_lower is_upper is_digit
part_humps sep [] = []
part_humps sep (c ∷ []) = c ∷ []
part_humps sep (c ∷ d ∷ s) =
    c ∷ (if (is_lower c || is_digit c) && is_upper d then sep ∷ [] else [])
    ++ part_humps sep (d ∷ s)

-- The longest runs of code units in a class, in order.
unfoldable pub runs : (ℕ → Bool) → Text → Text → List Text
unfolding is_blank
runs p cur [] = if is_blank cur then [] else cur ∷ []
runs p cur (c ∷ s) =
    let rest = runs p (if p c then cur ++ c ∷ [] else []) s in
    if p c || is_blank cur then rest else cur ∷ rest

-- The decimal digits of a number, before `out`; each round divides the number by ten, so the fuel `suc n` outlasts it.
unfoldable pub digits_from : ℕ → ℕ → Text → Text
digits_from zero n out = out
digits_from (suc f) n out =
    let out' : Text = (b'0' + n % 10) ∷ out in
    let more = digits_from f (n / 10) out' in if ltb n 10 then out' else more

unfoldable pub digits : ℕ → Text
unfolding digits_from
digits n = digits_from (suc n) n []

-- `s.trimEnd()`.
unfoldable pub trim_end : Text → Text
unfolding is_space all
trim_end [] = []
trim_end (c ∷ s) = if all is_space (c ∷ s) then [] else c ∷ trim_end s
