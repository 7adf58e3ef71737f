-- ===== src/SqlGuard/Expression.antt =====
-- What the loop of `assertSqlExpression` has read when it ends without a failure.
use native.Mathlib.Numerals.{add-one}
use mathlib.Core.Path.{subst}
use cliptown_lib_core.Prelude.{
  ℕ, zero, suc, ◌+◌, ◌-◌, ◌≡◌, sym, ◌∙◌, ◌≢◌, Bool, true, false, inl, inr, [], ◌∷◌, ◌++◌,
  append_assoc, append-nil, arith, ◌==◌, ok, Bool-cases,
}
use cliptown_lib_core.Text.{Text}
use cliptown_lib_core.SqlGuard.Scan.{Scanned, scan}
use cliptown_lib_core.SqlGuard.Grammar.{
  escape, escape-nil, escape-quote, escape-other, NotQuoteAhead, Lexes, done, plain, literal,
  Balanced, Levels, Levels-ordinary, Levels-open, Levels-close, is_top, IsOrdinary,
}

-- What the loop has read from an index on, if it ends outside a literal with all parentheses closed.
abbrev pub Reads : Bool → ℕ → Text → Text → Type 0
Reads false d s w = Lexes s w × Levels d w
Reads true d s w =
    (content : Text) × (rest : Text) × (s ≡ escape content ++ b'\'' ∷ rest)
    × NotQuoteAhead rest
    × Lexes rest w
    × Levels d w

Levels-nil : (d : ℕ) → d ≡ 0 → Levels d []
Levels-nil zero h = Balanced.nothing
Levels-nil (suc d) h = absurd (omega arith)

module _ (d : ℕ) (s w : Text) (c : ℕ) where
  Reads-doubled :
      (next : ℕ) → c ≡ b'\'' → next ≡ b'\'' → Reads true d s w → Reads true d (c ∷ next ∷ s) w
  Reads-doubled next p q (content, rest, e, ahead, lexes, levels) =
      (b'\'' ∷ content, rest, rw (p, q, escape-quote content, e), ahead, lexes, levels)

  Reads-closed : c ≡ b'\'' → NotQuoteAhead s → Reads false d s w → Reads true d (c ∷ s) w
  Reads-closed p ahead (lexes, levels) = ([], s, rw (p, escape-nil), ahead, lexes, levels)

  Reads-inside : c ≢ b'\'' → Reads true d s w → Reads true d (c ∷ s) w
  Reads-inside p (content, rest, e, ahead, lexes, levels) =
      (c ∷ content, rest, rw (escape-other c content p, e), ahead, lexes, levels)

  Reads-literal : c ≡ b'\'' → Reads true d s w → Reads false d (c ∷ s) (b'\'' ∷ b'\'' ∷ w)
  Reads-literal p (content, rest, e, ahead, lexes, levels) =
      rw p (literal content rest e ahead lexes, Levels_quote (b'\'' ∷ w) (Levels_quote w levels))
    where
      Levels_quote : (u : Text) → Levels d u → Levels d (b'\'' ∷ u)
      Levels_quote u = Levels-ordinary d b'\'' u (omega arith, omega arith, λ _. omega arith)

  Reads-open : c ≡ b'(' → Reads false (d + 1) s w → Reads false d (c ∷ s) (c ∷ w)
  Reads-open p (lexes, levels) =
      rw p (plain (omega arith) lexes, Levels-open d w (rw add-one at levels))

  Reads-close : c ≡ b')' → d ≢ 0 → Reads false (d - 1) s w → Reads false d (c ∷ s) (c ∷ w)
  Reads-close p deep (lexes, levels) =
      let same : d ≡ suc (d - 1) = omega arith in
      rw p (
        plain (omega arith) lexes,
        subst (λ n. Levels n (b')' ∷ w)) (sym same) (Levels-close (d - 1) w levels),
      )

  Reads-plain :
      c ≢ b'\'' → IsOrdinary (is_top d) c → Reads false d s w → Reads false d (c ∷ s) (c ∷ w)
  Reads-plain p o (lexes, levels) = (plain p lexes, Levels-ordinary d c w o levels)

regroup : (out a w : Text) {u : Text} → u ≡ (out ++ a) ++ w → u ≡ out ++ (a ++ w)
regroup out a w e = e ∙ append_assoc out a w

pub scan_sound :
    (label : Text) (quoted : Bool) (d : ℕ) (out s : Text) (r : Scanned)
    → scan label quoted d out s ≡ ok r
    → r.quoted ≡ false
    → r.depth ≡ 0
    → (w : Text) × (r.unquoted ≡ out ++ w) × Reads quoted d s w
unfolding scan
scan_sound label true d out [] r h q z = cc
scan_sound label true d out (c ∷ []) r h q z =
    let quote : c ≡ b'\'' = ground arith in
    let low : d ≡ 0 = ground arith in
    let same : r.unquoted ≡ out = ground arith in
    ([], same ∙ sym (append-nil out), Reads-closed d [] [] c quote tt (done, Levels-nil d low))
scan_sound label true d out (c ∷ next ∷ rest) r h q z = elim (Bool-cases (c == b'\'')) [
  | inl p ↦ elim (Bool-cases (next == b'\'')) [
    | inl n ↦
        let step : scan label true d out rest ≡ ok r = ground arith in
        let (w, e, reads) = scan_sound label true d out rest r step q z in
        (w, e, Reads-doubled d rest w c next (ground arith) (ground arith) reads)
    | inr n ↦
        let step : scan label false d out (next ∷ rest) ≡ ok r = ground arith in
        let (w, e, reads) = scan_sound label false d out (next ∷ rest) r step q z in
        (w, e, Reads-closed d (next ∷ rest) w c (ground arith) (ground arith) reads)
  ]
  | inr p ↦
      let step : scan label true d out (next ∷ rest) ≡ ok r = ground arith in
      let (w, e, reads) = scan_sound label true d out (next ∷ rest) r step q z in
      (w, e, Reads-inside d (next ∷ rest) w c (ground arith) reads)
]
scan_sound label false d out [] r h q z =
    let low : d ≡ 0 = ground arith in
    let same : r.unquoted ≡ out = ground arith in
    ([], same ∙ sym (append-nil out), (done, Levels-nil d low))
scan_sound label false d out (c ∷ rest) r h q z = elim (Bool-cases (c == b'\'')) [
  | inl p ↦
      let step : scan label true d (out ++ b'\'' ∷ b'\'' ∷ []) rest ≡ ok r = ground arith in
      let (w, e, reads) = scan_sound label true d _ rest r step q z in
      (b'\'' ∷ b'\'' ∷ w, regroup out _ w e, Reads-literal d rest w c (ground arith) reads)
  | inr p ↦ elim (Bool-cases (c == b'(')) [
    | inl o ↦
        let step : scan label false (d + 1) (out ++ c ∷ []) rest ≡ ok r = ground arith in
        let (w, e, reads) = scan_sound label false (d + 1) _ rest r step q z in
        (c ∷ w, regroup out _ w e, Reads-open d rest w c (ground arith) reads)
    | inr o ↦ elim (Bool-cases (c == b')')) [
      | inl k ↦
          let step : scan label false (d - 1) (out ++ c ∷ []) rest ≡ ok r = ground arith in
          let deep : d ≢ 0 = ground arith in
          let (w, e, reads) = scan_sound label false (d - 1) _ rest r step q z in
          (c ∷ w, regroup out _ w e, Reads-close d rest w c (ground arith) deep reads)
      | inr k ↦
          let step : scan label false d (out ++ c ∷ []) rest ≡ ok r = ground arith in
          let (w, e, reads) = scan_sound label false d _ rest r step q z in
          (c ∷ w, regroup out _ w e, Reads-plain d rest w c (ground arith) (ground arith) reads)
    ]
  ]
]
