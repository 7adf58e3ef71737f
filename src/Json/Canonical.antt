-- ===== src/Json/Canonical.antt =====
-- `stableStringify` of tools/schema-orm/core.mjs: the text of a document with the keys of every
-- object sorted.
use cliptown_lib_core.Prelude.{
  ℕ, ◌+◌, ◌-◌, ◌*◌, Bool, true, false, not, ◌&&◌, ◌||◌, List, [], ◌∷◌, ◌++◌, ltb, ◌==◌,
  if◌then◌else◌, all, keep,
}
use cliptown_lib_core.Text.{Text, is_digit}
use cliptown_lib_core.Json.{
  Json, null, bool, num, str, arr, obj, Items, nil, cons, Members, end, member,
}
use cliptown_lib_core.Json.Stringify.{pretty}

-- The order of `Array.prototype.sort`: by code units.
unfoldable pub text_less : Text → Text → Bool
text_less [] [] = false
text_less [] (b ∷ t) = true
text_less (a ∷ s) [] = false
text_less (a ∷ s) (b ∷ t) = ltb a b || (a == b && text_less s t)

abbrev pub Entry : Type 0
Entry = Text × Json

module _ {ℓ} {A : Type ℓ} (less : A → A → Bool) where
  unfoldable pub insert : A → List A → List A
  insert e [] = e ∷ []
  insert e (d ∷ ds) = if less e d then e ∷ d ∷ ds else d ∷ insert e ds

  unfoldable pub insertion_sort : List A → List A
  unfolding insert
  insertion_sort [] = []
  insertion_sort (e ∷ es) = insert e (insertion_sort es)

unfoldable pub key_less : Entry → Entry → Bool
unfolding text_less
key_less (k, v) (j, w) = text_less k j

unfoldable pub value_of : ℕ → Text → ℕ
value_of n [] = n
value_of n (c ∷ s) = value_of (n * 10 + (c - b'0')) s

-- A key that an object lists first, in numeric order: the decimal text of an array index.
unfoldable pub is_index : Text → Bool
unfolding all is_digit value_of
is_index [] = false
is_index (c ∷ []) = is_digit c
is_index (c ∷ d ∷ s) =
    all is_digit (c ∷ d ∷ s) && not (c == b'0') && ltb (value_of 0 (c ∷ d ∷ s)) 0xffffffff

unfoldable pub index_less : Entry → Entry → Bool
unfolding value_of
index_less (k, v) (j, w) = ltb (value_of 0 k) (value_of 0 j)

unfoldable pub members : List Entry → Members
members [] = end
members ((k, v) ∷ es) = member k v (members es)

-- `Object.fromEntries`, in the order in which the object then lists its members.
unfoldable pub from_entries : List Entry → Members
unfolding members insertion_sort index_less is_index keep
from_entries es =
    members
      (insertion_sort index_less (keep (λ e. is_index e.0) es) ++ keep (λ e. not (is_index e.0)) es)

-- The inner function `sort`.
unfoldable mutual
  unfolding from_entries insertion_sort key_less

  pub canonical : Json → Json
  canonical (arr vs) = arr (canonical_items vs)
  canonical (obj ms) = obj (from_entries (insertion_sort key_less (canonical_entries ms)))
  canonical null = null
  canonical (bool b) = bool b
  canonical (num n) = num n
  canonical (str s) = str s

  pub canonical_items : Items → Items
  canonical_items nil = nil
  canonical_items (cons v vs) = cons (canonical v) (canonical_items vs)

  pub canonical_entries : Members → List Entry
  canonical_entries end = []
  canonical_entries (member k v ms) = (k, canonical v) ∷ canonical_entries ms

unfoldable pub stable_stringify : Json → Text
unfolding canonical pretty
stable_stringify value = pretty 0 (canonical value) ++ 10 ∷ []
