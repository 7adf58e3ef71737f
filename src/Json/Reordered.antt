-- ===== src/Json/Reordered.antt =====
-- tools/schema-orm/core.mjs, `stableStringify`: its text does not depend on the order of members.
use cliptown_lib_core.Prelude.{
  ◌≡◌, refl, ◌≢◌, sym, ap, ap₂, ◌∙◌, inl, inr, true, false, List, [], ◌∷◌, ◌++◌, arith, Bool-cases,
}
use cliptown_lib_core.Text.{Text}
use cliptown_lib_core.Json.{Json, arr, obj, Items, nil, cons, Members, end, member}
use cliptown_lib_core.Json.Stringify.{pretty}
use cliptown_lib_core.Json.Canonical.{
  text_less, Entry, insert, insertion_sort, key_less, from_entries, canonical, canonical_items,
  canonical_entries, stable_stringify,
}
use cliptown_lib_core.Json.Order.{AtMost, less-AtMost, less_trans}

-- Documents that differ only in the order of members, at any depth.
mutual
  pub data Reordered : Json → Json → Type 0 where
    same : {v : Json} → Reordered v v
    items : {vs ws : Items} → ReorderedItems vs ws → Reordered (arr vs) (arr ws)
    object : {ms ns : Members} → ReorderedMembers ms ns → Reordered (obj ms) (obj ns)

  pub data ReorderedItems : Items → Items → Type 0 where
    no_items : ReorderedItems nil nil
    next_item :
        {v w : Json} {vs ws : Items}
        → Reordered v w
        → ReorderedItems vs ws
        → ReorderedItems (cons v vs) (cons w ws)

  pub data ReorderedMembers : Members → Members → Type 0 where
    no_members : ReorderedMembers end end
    next_member :
        {k : Text} {v w : Json} {ms ns : Members}
        → Reordered v w
        → ReorderedMembers ms ns
        → ReorderedMembers (member k v ms) (member k w ns)
    swapped :
        {j k : Text} {v w : Json} {ms : Members}
        → j ≢ k
        → ReorderedMembers (member j v (member k w ms)) (member k w (member j v ms))
    chained :
        {ls ms ns : Members}
        → ReorderedMembers ls ms
        → ReorderedMembers ms ns
        → ReorderedMembers ls ns

AtMost-antisym : (a b : Text) → AtMost a b → AtMost b a → a ≡ b
unfolding text_less
AtMost-antisym [] [] h k = refl
AtMost-antisym [] (y ∷ b) h k = absurd cc
AtMost-antisym (x ∷ a) [] h k = absurd cc
AtMost-antisym (x ∷ a) (y ∷ b) h k =
    let heads : x ≡ y = ground arith in
    let back : text_less b a ≡ false = ground arith in
    let front : text_less a b ≡ false = ground arith in
    ap₂ (λ c t. c ∷ t) heads (AtMost-antisym a b back front)

key_less_trans : (d e x : Entry) → key_less d e ≡ true → key_less e x ≡ true → key_less d x ≡ true
unfolding key_less
key_less_trans d e x h k = less_trans d.0 e.0 x.0 h (less-AtMost e.0 x.0 k)

key_less-asym : (d e : Entry) → key_less d e ≡ true → key_less e d ≡ false
unfolding key_less
key_less-asym d e h = less-AtMost d.0 e.0 h

key_less-antisym : (d e : Entry) → key_less d e ≡ false → key_less e d ≡ false → d.0 ≡ e.0
unfolding key_less
key_less-antisym d e h k = AtMost-antisym d.0 e.0 k h

insert-less :
    (d e : Entry) (es : List Entry)
    → key_less d e ≡ true
    → key_less e d ≡ false
    → insert key_less d (insert key_less e es) ≡ insert key_less e (insert key_less d es)
unfolding insert
insert-less d e [] de ed = rw (de, ed) refl
insert-less d e (x ∷ es) de ed = elim (Bool-cases (key_less e x)) [
  | inl ex ↦
      let dx : key_less d x ≡ true = key_less_trans d e x de ex in rw (ex, dx, de, ed, ex) refl
  | inr ex ↦ elim (Bool-cases (key_less d x)) [
    | inl dx ↦ rw (ex, dx, ed, ex) refl
    | inr dx ↦ rw (ex, dx, ex) (ap (λ ys. x ∷ ys) (insert-less d e es de ed))
  ]
]

-- Entries with different keys may be inserted in either order.
insert-insert :
    (d e : Entry) (es : List Entry)
    → d.0 ≢ e.0
    → insert key_less d (insert key_less e es) ≡ insert key_less e (insert key_less d es)
insert-insert d e es n = elim (Bool-cases (key_less d e)) [
  | inl de ↦ insert-less d e es de (key_less-asym d e de)
  | inr de ↦ elim (Bool-cases (key_less e d)) [
    | inl ed ↦ sym (insert-less e d es ed de)
    | inr ed ↦ absurd (n (key_less-antisym d e de ed))
  ]
]

mutual
  unfolding canonical insertion_sort

  canonical-Reordered : {v w : Json} → Reordered v w → canonical v ≡ canonical w
  canonical-Reordered same = refl
  canonical-Reordered (items r) = ap arr (canonical_items-Reordered r)
  canonical-Reordered (object r) = ap (λ es. obj (from_entries es)) (canonical_entries-Reordered r)

  canonical_items-Reordered :
      {vs ws : Items} → ReorderedItems vs ws → canonical_items vs ≡ canonical_items ws
  canonical_items-Reordered no_items = refl
  canonical_items-Reordered (next_item r rs) =
      ap₂ (λ a b. cons a b) (canonical-Reordered r) (canonical_items-Reordered rs)

  canonical_entries-Reordered :
      {ms ns : Members}
      → ReorderedMembers ms ns
      → insertion_sort key_less (canonical_entries ms)
        ≡ insertion_sort key_less (canonical_entries ns)
  canonical_entries-Reordered no_members = refl
  canonical_entries-Reordered (next_member {k = k} r rs) =
      ap₂ (λ a b. insert key_less (k, a) b) (canonical-Reordered r) (canonical_entries-Reordered rs)
  canonical_entries-Reordered (swapped {j = j} {k = k} {v = v} {w = w} {ms = ms} n) =
      insert-insert (j, canonical v) (k, canonical w)
        (insertion_sort key_less (canonical_entries ms)) n
  canonical_entries-Reordered (chained r s) =
      canonical_entries-Reordered r ∙ canonical_entries-Reordered s

-- Documents that differ only in the order of members with different names, at any depth, have the
-- same text.
pub stable_stringify-Reordered :
    (v w : Json) → Reordered v w → stable_stringify v ≡ stable_stringify w
unfolding stable_stringify
stable_stringify-Reordered v w r = ap (λ u. pretty 0 u ++ 10 ∷ []) (canonical-Reordered r)
