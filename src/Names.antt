-- ===== src/Names.antt =====
-- tools/schema-orm/core.mjs: the spelling of names in each target language.
pub mod Languages
pub mod Snake
use mathlib.Core.List.{reverse}
use cliptown_lib_core.Prelude.{
  ℕ, Bool, false, not, ◌&&◌, ◌||◌, List, [], ◌∷◌, ◌++◌, map, ◌==◌, if◌then◌else◌,
}
use cliptown_lib_core.Text.{
  Text, lit, is_one_of, concat, is_alnum, is_space, lower_char, upper_char, to_lower, is_blank,
  squeeze, part_humps, runs,
}
use cliptown_lib_core.Text.Replace.{ends_with, drop_last}

-- The class of `/[-.\s]+/g`.
unfoldable pub is_separator : ℕ → Bool
unfolding is_space
is_separator c = c == b'-' || c == b'.' || is_space c

unfoldable pub snake_case : Text → Text
unfolding part_humps squeeze is_separator to_lower
snake_case value =
    to_lower (
      squeeze (λ c. c == b'_') b'_' false (squeeze is_separator b'_' false (part_humps b'_' value)))

-- `part.charAt(0).toUpperCase() + part.slice(1)`.
unfoldable pub capitalize : Text → Text
unfolding upper_char
capitalize [] = []
capitalize (c ∷ s) = upper_char c ∷ s

unfoldable pub uncapitalize : Text → Text
unfolding lower_char
uncapitalize [] = []
uncapitalize (c ∷ s) = lower_char c ∷ s

-- `split(/[^A-Za-z0-9]+/).filter(Boolean)` keeps the longest runs of letters and digits.
unfoldable pub pascal_case : Text → Text
unfolding part_humps runs is_alnum capitalize concat
pascal_case value = concat (map capitalize (runs is_alnum [] (part_humps b' ' value)))

unfoldable pub camel_case : Text → Text
unfolding pascal_case uncapitalize
camel_case value = uncapitalize (pascal_case value)

-- `/[aeiou]y$/i.test(value)`.
unfoldable pub ends_in_vowel_y : Text → Bool
unfolding is_one_of to_lower lit
ends_in_vowel_y value = elim (reverse (to_lower value)) [
  | c ∷ d ∷ s ↦ (c == b'y') && (d == b'a' || d == b'e' || d == b'i' || d == b'o' || d == b'u')
  | _ ↦ false
]

unfoldable pub pluralize : Text → Text
unfolding ends_with ends_in_vowel_y drop_last lit
pluralize value =
    if ends_with value (lit "s")
    then value ++ lit "Records"
    else if ends_with value (lit "y") && not (ends_in_vowel_y value)
    then drop_last value ++ lit "ies"
    else value ++ lit "s"
