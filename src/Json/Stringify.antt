-- ===== src/Json/Stringify.antt =====
-- `JSON.stringify` and `String` on parsed documents, and `stableStringify` of
-- tools/schema-orm/core.mjs.
use cliptown_lib_core.Prelude.{
  ℕ, zero, suc, ◌+◌, ◌/◌, ◌%◌, Bool, true, false, not, ◌&&◌, ◌||◌, List, [], ◌∷◌, ◌++◌, ltb, ◌==◌,
  if◌then◌else◌, Result, ok, err, outside,
}
use cliptown_lib_core.Text.{Text, lit, digits, between, join}
use cliptown_lib_core.Json.{
  Number, plus, minus, double, Json, null, bool, num, str, arr, obj, Items, nil, cons, Members, end,
  member,
}

unfoldable pub hex_digit : ℕ → ℕ
hex_digit d = if ltb d 10 then b'0' + d else 87 + d

-- `\u` and four hexadecimal digits.
unfoldable pub unicode_escape : ℕ → Text
unfolding hex_digit
unicode_escape c =
    b'\\'
    ∷ b'u'
    ∷ hex_digit (c / 4096)
    ∷ hex_digit (c / 256 % 16)
    ∷ hex_digit (c / 16 % 16)
    ∷ hex_digit (c % 16)
    ∷ []

unfoldable pub is_high : ℕ → Bool
is_high c = between 0xd800 0xdbff c

unfoldable pub is_low : ℕ → Bool
is_low c = between 0xdc00 0xdfff c

unfoldable pub starts_low : Text → Bool
unfolding is_low
starts_low [] = false
starts_low (c ∷ s) = is_low c

-- One code unit; `paired` tells of a surrogate whether the other half stands beside it.
unfoldable pub escape_unit : Bool → ℕ → Text
unfolding unicode_escape is_high is_low
escape_unit paired c =
    if c == b'"' || c == b'\\'
    then b'\\' ∷ c ∷ []
    else if c == 8
    then b'\\' ∷ b'b' ∷ []
    else if c == 9
    then b'\\' ∷ b't' ∷ []
    else if c == 10
    then b'\\' ∷ b'n' ∷ []
    else if c == 12
    then b'\\' ∷ b'f' ∷ []
    else if c == 13
    then b'\\' ∷ b'r' ∷ []
    else if ltb c 32 || ((is_high c || is_low c) && not paired)
    then unicode_escape c
    else c ∷ []

-- The first argument tells whether the unit before is the first half of a pair.
unfoldable pub escape_from : Bool → Text → Text
unfolding escape_unit starts_low is_high is_low
escape_from before [] = []
escape_from before (c ∷ s) =
    escape_unit (if is_high c then starts_low s else before) c ++ escape_from (is_high c) s

-- `JSON.stringify` of a string.
unfoldable pub quote : Text → Text
unfolding escape_from
quote s = b'"' ∷ escape_from false s ++ b'"' ∷ []

unfoldable pub number_text : Number → Text
unfolding digits
number_text (plus n) = digits n
number_text (minus n) = b'-' ∷ digits (suc n)
number_text (double s) = s

unfoldable pub bool_text : Bool → Text
unfolding lit
bool_text true = lit "true"
bool_text false = lit "false"

-- `JSON.stringify(value)`.
unfoldable mutual
  unfolding quote number_text bool_text join lit

  pub stringify : Json → Text
  stringify null = lit "null"
  stringify (bool b) = bool_text b
  stringify (num n) = number_text n
  stringify (str s) = quote s
  stringify (arr vs) = b'[' ∷ join (b',' ∷ []) (stringify_items vs) ++ b']' ∷ []
  stringify (obj ms) = b'{' ∷ join (b',' ∷ []) (stringify_members ms) ++ b'}' ∷ []

  pub stringify_items : Items → List Text
  stringify_items nil = []
  stringify_items (cons v vs) = stringify v ∷ stringify_items vs

  pub stringify_members : Members → List Text
  stringify_members end = []
  stringify_members (member k v ms) = (quote k ++ b':' ∷ stringify v) ∷ stringify_members ms

-- A line break and the indentation of a level.
unfoldable pub break_line : ℕ → Text
break_line zero = 10 ∷ []
break_line (suc n) = break_line n ++ b' ' ∷ b' ' ∷ []

unfoldable pub block : ℕ → ℕ → ℕ → List Text → Text
unfolding join break_line
block open_char close_char level [] = open_char ∷ close_char ∷ []
block open_char close_char level (s ∷ ss) =
    open_char ∷ break_line (suc level)
    ++ join (b',' ∷ break_line (suc level)) (s ∷ ss)
    ++ break_line level
    ++ close_char ∷ []

-- `JSON.stringify(value, null, 2)`, inside `level` enclosing values.
unfoldable mutual
  unfolding quote number_text bool_text block lit

  pub pretty : ℕ → Json → Text
  pretty level null = lit "null"
  pretty level (bool b) = bool_text b
  pretty level (num n) = number_text n
  pretty level (str s) = quote s
  pretty level (arr vs) = block b'[' b']' level (pretty_items (suc level) vs)
  pretty level (obj ms) = block b'{' b'}' level (pretty_members (suc level) ms)

  pub pretty_items : ℕ → Items → List Text
  pretty_items level nil = []
  pretty_items level (cons v vs) = pretty level v ∷ pretty_items level vs

  pub pretty_members : ℕ → Members → List Text
  pretty_members level end = []
  pretty_members level (member k v ms) =
      (quote k ++ b':' ∷ b' ' ∷ pretty level v) ∷ pretty_members level ms

-- `String(value)`; arrays and objects are not followed.
unfoldable pub string_of : Json → Result Text
unfolding bool_text number_text lit
string_of null = ok (lit "null")
string_of (bool b) = ok (bool_text b)
string_of (num n) = ok (number_text n)
string_of (str s) = ok s
string_of (arr vs) = err outside
string_of (obj ms) = err outside
