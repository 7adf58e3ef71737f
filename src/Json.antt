-- ===== src/Json.antt =====
-- Documents as `JSON.parse` returns them, with the property reads and coercions of JavaScript.
-- The members of an object stand in the order of `Object.entries` and have distinct keys.
pub mod Stringify
pub mod Canonical
pub mod Order
pub mod Reordered
use cliptown_lib_core.Prelude.{
  ℕ, ◌^◌, ◌-◌, Bool, true, false, not, ◌&&◌, List, [], ◌∷◌, map, Option, none, some, leb, ◌==◌,
  if◌then◌else◌, length, Result, ok, err, type_error, outside,
}
use cliptown_lib_core.Text.{Text, lit, text_eq, is_one_of, is_blank}

-- A number: a safe integer, or any other double by the text that `String(x)` gives it.
-- `minus n` is -(n + 1).
pub data Number : Type 0 where
  plus : ℕ → Number
  minus : ℕ → Number
  double : Text → Number

mutual
  pub data Json : Type 0 where
    null : Json
    bool : Bool → Json
    num : Number → Json
    str : Text → Json
    arr : Items → Json
    obj : Members → Json

  pub data Items : Type 0 where
    nil : Items
    cons : Json → Items → Items

  pub data Members : Type 0 where
    end : Members
    member : Text → Json → Members → Members

unfoldable pub items : Items → List Json
items nil = []
items (cons v vs) = v ∷ items vs

unfoldable pub to_items : List Json → Items
to_items [] = nil
to_items (v ∷ vs) = cons v (to_items vs)

-- An array of strings.
unfoldable pub text_array : List Text → Json
unfolding to_items
text_array texts = arr (to_items (map str texts))

unfoldable pub entries : Members → List (Text × Json)
entries end = []
entries (member k v ms) = (k, v) ∷ entries ms

-- `Object.hasOwn(value, key)` and a read of an own property.
unfoldable pub own : Text → Members → Option Json
unfolding text_eq
own key end = none
own key (member k v ms) = if text_eq k key then some v else own key ms

-- `value[key]` for a key that no prototype holds; `none` is `undefined`.
unfoldable pub read : Text → Json → Result (Option Json)
unfolding own
read key null = err type_error
read key (obj ms) = ok (own key ms)
read key _ = ok none

-- `value?.[key]` and the same for a value that may be `undefined`.
unfoldable pub read? : Text → Option Json → Option Json
unfolding own
read? key (some (obj ms)) = own key ms
read? key _ = none

unfoldable pub truthy : Json → Bool
unfolding is_blank
truthy null = false
truthy (bool b) = b
truthy (num (plus n)) = not (n == 0)
truthy (num _) = true
truthy (str s) = not (is_blank s)
truthy (arr vs) = true
truthy (obj ms) = true

unfoldable pub truthy? : Option Json → Bool
unfolding truthy
truthy? none = false
truthy? (some v) = truthy v

-- `typeof value === 'object'` and not `null`.
unfoldable pub is_object : Option Json → Bool
is_object (some (arr vs)) = true
is_object (some (obj ms)) = true
is_object _ = false

unfoldable pub is_array : Option Json → Bool
is_array (some (arr vs)) = true
is_array _ = false

-- `value == null`: what `??` replaces.
unfoldable pub is_nullish : Option Json → Bool
is_nullish none = true
is_nullish (some null) = true
is_nullish (some _) = false

-- `value === text`.
unfoldable pub is_text : Option Json → Text → Bool
unfolding text_eq
is_text (some (str s)) t = text_eq s t
is_text _ t = false

-- A value where the model follows strings only.
unfoldable pub as_text : Json → Result Text
as_text (str s) = ok s
as_text _ = err outside

-- `value ?? fallback` where the model follows strings only.
unfoldable pub text_or : Text → Option Json → Result Text
unfolding as_text
text_or fallback none = ok fallback
text_or fallback (some null) = ok fallback
text_or fallback (some v) = as_text v

abbrev pub max_safe : ℕ
max_safe = 2 ^ 53 - 1

-- The names that every object inherits from `Object.prototype`.
unfoldable pub is_inherited : Text → Bool
unfolding is_one_of lit
is_inherited key = is_one_of key (
    lit "constructor"
    ∷ lit "hasOwnProperty"
    ∷ lit "isPrototypeOf"
    ∷ lit "propertyIsEnumerable"
    ∷ lit "toLocaleString"
    ∷ lit "toString"
    ∷ lit "valueOf"
    ∷ lit "__defineGetter__"
    ∷ lit "__defineSetter__"
    ∷ lit "__lookupGetter__"
    ∷ lit "__lookupSetter__"
    ∷ lit "__proto__"
    ∷ [])
