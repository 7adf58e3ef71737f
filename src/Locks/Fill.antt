-- ===== src/Locks/Fill.antt =====
-- locks/typescript: the two ways to fill the placeholders of a lock's name agree.
use cliptown_lib_core.Prelude.{
  ℕ, suc, ◌≡◌, refl, sym, ap, ◌∙◌, ◌≢◌, inl, inr, Bool, true, false, ◌&&◌, List, [], ◌∷◌, ◌++◌,
  ◌==◌, Result, Bool-cases, arith, append_assoc, append-nil, and-eq-true,
}
use cliptown_lib_core.Text.{Text}
use cliptown_lib_core.Locks.{
  LockEntry, key, nth_text, closes, split_placeholders, fill_parts, entry_key, replace_placeholders,
  built_entry_key,
}

split-nonempty : (inside : Bool) (cur s : Text) → split_placeholders inside cur s ≢ []
unfolding split_placeholders
split-nonempty inside cur [] = cc
split-nonempty true cur (c ∷ s) = elim (Bool-cases (c == b'}')) [
  | inl e ↦ rw e (cc)
  | inr e ↦ rw e (split-nonempty true cur s)
]
split-nonempty false cur (c ∷ s) = elim (Bool-cases (c == b'{' && closes s)) [
  | inl e ↦ rw e (split-nonempty true cur s)
  | inr e ↦ rw e (split-nonempty false (cur ++ c ∷ []) s)
]

fill_parts-cons :
    (fill : List Text) (i : ℕ) (part : Text) (parts : List Text)
    → parts ≢ []
    → fill_parts fill i (part ∷ parts) ≡ part ++ nth_text fill i ++ fill_parts fill (suc i) parts
unfolding fill_parts
fill_parts-cons fill i part [] h = absurd (h refl)
fill_parts-cons fill i part (next ∷ parts) h = refl

closes-next : (c : ℕ) (s : Text) → closes (c ∷ s) ≡ true → (c == b'}') ≡ false → closes s ≡ true
unfolding closes
closes-next c s h e = ground arith

mutual
  unfolding split_placeholders replace_placeholders fill_parts closes

  fill-plain :
      (fill : List Text) (i : ℕ) (cur s : Text)
      → fill_parts fill i (split_placeholders false cur s)
        ≡ cur ++ replace_placeholders fill false i s
  fill-plain fill i cur [] = sym (append-nil cur)
  fill-plain fill i cur (c ∷ s) = elim (Bool-cases (c == b'{' && closes s)) [
    | inl e ↦ rw e (fill-inside fill i cur s (and-eq-true (c == b'{') (closes s) e).1)
    | inr e ↦ rw e (fill-plain fill i (cur ++ c ∷ []) s ∙ append_assoc cur (c ∷ []) _)
  ]

  fill-inside :
      (fill : List Text) (i : ℕ) (cur s : Text)
      → closes s ≡ true
      → fill_parts fill i (split_placeholders true cur s)
        ≡ cur ++ (nth_text fill i ++ replace_placeholders fill true (suc i) s)
  fill-inside fill i cur [] h = cc
  fill-inside fill i cur (c ∷ s) h = elim (Bool-cases (c == b'}')) [
    | inl e ↦ rw e (
        fill_parts-cons fill i cur (split_placeholders false [] s) (split-nonempty false [] s)
        ∙ ap (λ t. cur ++ nth_text fill i ++ t) (fill-plain fill (suc i) [] s)
        ∙ append_assoc cur (nth_text fill i) _)
    | inr e ↦ rw e (fill-inside fill i cur s (closes-next c s h e))
  ]

-- For every entry and every list of fills, the source and the built package make the same key,
-- whatever `lockKey` does with it.
pub entry_key-built_entry_key {ℓ} :
    {K : Type ℓ} (lock_key : Text → Result K) (entry : LockEntry) (fill : List Text)
    → entry_key lock_key entry fill ≡ built_entry_key lock_key entry fill
unfolding entry_key built_entry_key
entry_key-built_entry_key lock_key entry fill =
    ap (key lock_key entry.domain) (fill-plain fill 0 [] entry.name)
