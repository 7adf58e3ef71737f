-- ===== src/Json/Order.antt =====
-- The order of strings by code units, as `Array.prototype.sort` uses it.
use cliptown_lib_core.Prelude.{◌≡◌, refl, inl, inr, true, false, [], ◌∷◌, arith, Bool-cases}
use cliptown_lib_core.Text.{Text}
use cliptown_lib_core.Json.Canonical.{text_less}

-- `b` is not before `a`.
abbrev pub AtMost : Text → Text → Type 0
AtMost a b = text_less b a ≡ false

pub less-AtMost : (a b : Text) → text_less a b ≡ true → AtMost a b
unfolding text_less
less-AtMost [] [] h = cc
less-AtMost [] (y ∷ b) h = refl
less-AtMost (x ∷ a) [] h = cc
less-AtMost (x ∷ a) (y ∷ b) h = elim (Bool-cases (text_less a b)) [
  | inl e ↦ let back = less-AtMost a b e in ground arith
  | inr e ↦ ground arith
]

pub AtMost-trans : (a b c : Text) → AtMost a b → AtMost b c → AtMost a c
unfolding text_less
AtMost-trans [] b [] h k = refl
AtMost-trans [] b (z ∷ c) h k = refl
AtMost-trans (x ∷ a) [] c h k = cc
AtMost-trans (x ∷ a) (y ∷ b) [] h k = cc
AtMost-trans (x ∷ a) (y ∷ b) (z ∷ c) h k = elim (Bool-cases (text_less c a)) [
  | inr e ↦ ground arith
  | inl e ↦ elim (Bool-cases (text_less b a)) [
    | inl f ↦ ground arith
    | inr f ↦ elim (Bool-cases (text_less c b)) [
      | inl g ↦ ground arith
      | inr g ↦ let clash = AtMost-trans a b c f g in ground arith
    ]
  ]
]

pub less_trans : (e d x : Text) → text_less e d ≡ true → AtMost d x → text_less e x ≡ true
less_trans e d x h k = elim (Bool-cases (text_less e x)) [
  | inl s ↦ s
  | inr s ↦ let clash = AtMost-trans d x e k s in cc
]
