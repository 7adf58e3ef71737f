-- ===== src/Lint/RequireSend/Reports.antt =====
-- .ores-lint/eslint/plugin.mjs, `requireSendRule`: which chains are reported.
use cliptown_lib_core.Prelude.{
  ◌≡◌, refl, sym, ap, ◌↔◌, ◌⊎◌, inl, inr, Bool, true, false, not, List, [], ◌∷◌, ◌++◌, Option, none,
  some, any, All, Bool-cases, not-eq-true, arith, append_assoc, ◌∙◌, append-nil,
}
use cliptown_lib_core.Text.{Text, is_one_of, is_blank}
use cliptown_lib_core.Lint.Chains.{
  Node, identifier, member, call, collect_call_chain, push_method, property_name, qualified_name,
}
use cliptown_lib_core.Lint.RequireSend.{Settings, after_level, is_undelivered}

-- The methods are split at the first level method, and behind it there is no terminal method.
pub record IsUndelivered (s : Settings) (methods : List Text) : Type 0 where
  pub before : List Text
  pub level : Text
  pub behind : List Text
  pub split : methods ≡ before ++ level ∷ behind
  pub first : All (λ m. is_one_of m s.level_methods ≡ false) before
  pub reached : is_one_of level s.level_methods ≡ true
  pub dropped : All (λ m. is_one_of m s.terminal_methods ≡ false) behind

any-eq-false {ℓ} :
    {A : Type ℓ} (p : A → Bool) (xs : List A) → any p xs ≡ false → All (λ x. p x ≡ false) xs
unfolding any
any-eq-false p [] h = tt
any-eq-false p (x ∷ xs) h = elim (Bool-cases (p x)) [
  | inl e ↦ absurd (ground arith)
  | inr e ↦ (e, any-eq-false p xs (ground arith))
]

All-any {ℓ} :
    {A : Type ℓ} (p : A → Bool) (xs : List A) → All (λ x. p x ≡ false) xs → any p xs ≡ false
unfolding any
All-any p [] h = refl
All-any p (x ∷ xs) h = rw h.0 (All-any p xs h.1)

after_level-here :
    (s : Settings) (m : Text) (ms : List Text)
    → is_one_of m s.level_methods ≡ true
    → after_level s (m ∷ ms) ≡ some ms
unfolding after_level
after_level-here s m ms h = rw h refl

after_level-later :
    (s : Settings) (m : Text) (ms : List Text)
    → is_one_of m s.level_methods ≡ false
    → after_level s (m ∷ ms) ≡ after_level s ms
unfolding after_level
after_level-later s m ms h = rw h refl

after_level-split :
    (s : Settings) (before : List Text) (level : Text) (behind : List Text)
    → All (λ m. is_one_of m s.level_methods ≡ false) before
    → is_one_of level s.level_methods ≡ true
    → after_level s (before ++ level ∷ behind) ≡ some behind
after_level-split s [] level behind h k = after_level-here s level behind k
after_level-split s (m ∷ before) level behind h k =
    after_level-later s m (before ++ level ∷ behind) h.0
    ∙ after_level-split s before level behind h.1 k

-- What `findIndex` and `slice` give.
pub record Split (s : Settings) (methods behind : List Text) : Type 0 where
  pub before : List Text
  pub level : Text
  pub same : methods ≡ before ++ level ∷ behind
  pub first : All (λ m. is_one_of m s.level_methods ≡ false) before
  pub reached : is_one_of level s.level_methods ≡ true

after_level-Split :
    (s : Settings) (methods behind : List Text)
    → after_level s methods ≡ some behind
    → Split s methods behind
unfolding after_level
after_level-Split s [] behind h = cc
after_level-Split s (m ∷ ms) behind h = elim (Bool-cases (is_one_of m s.level_methods)) [
  | inl e ↦
      let same : some ms ≡ some behind = sym (after_level-here s m ms e) ∙ h in
      record { before = []; level = m; same = cc; first = tt; reached = e }
  | inr e ↦
      let r = after_level-Split s ms behind (sym (after_level-later s m ms e) ∙ h) in
      record {
        before = m ∷ r.before;
        level = r.level;
        same = ap (λ l. m ∷ l) r.same;
        first = (e, r.first);
        reached = r.reached;
      }
]

Option-split {ℓ} : {A : Type ℓ} (o : Option A) → (o ≡ none) ⊎ ((a : A) × (o ≡ some a))
Option-split none = inl refl
Option-split (some a) = inr (a, refl)

is_undelivered-tail :
    (s : Settings) (methods behind : List Text)
    → after_level s methods ≡ some behind
    → is_undelivered s methods ≡ not (any (λ m. is_one_of m s.terminal_methods) behind)
unfolding is_undelivered
is_undelivered-tail s methods behind h = rw (is_undelivered, h) refl

is_undelivered-none :
    (s : Settings) (methods : List Text)
    → after_level s methods ≡ none
    → is_undelivered s methods ≡ false
unfolding is_undelivered
is_undelivered-none s methods h = rw (is_undelivered, h) refl

-- The rule's test on the methods of a chain holds exactly where the chain reaches a level method and
-- has no terminal method behind the first one.
pub is_undelivered-IsUndelivered :
    (s : Settings) (methods : List Text)
    → (is_undelivered s methods ≡ true) ↔ IsUndelivered s methods
is_undelivered-IsUndelivered s methods = (forth, back)
  where
    forth : is_undelivered s methods ≡ true → IsUndelivered s methods
    forth h = elim (Option-split (after_level s methods)) [
      | inl e ↦ absurd (let none_there = is_undelivered-none s methods e in cc)
      | inr (behind, e) ↦
          let r = after_level-Split s methods behind e in
          let free = not-eq-true _ (sym (is_undelivered-tail s methods behind e) ∙ h) in
          record {
            before = r.before;
            level = r.level;
            behind = behind;
            split = r.same;
            first = r.first;
            reached = r.reached;
            dropped = any-eq-false (λ m. is_one_of m s.terminal_methods) behind free;
          }
    ]

    back : IsUndelivered s methods → is_undelivered s methods ≡ true
    back r =
        let tail =
          ap (after_level s) r.split
          ∙ after_level-split s r.before r.level r.behind r.first r.reached in
        is_undelivered-tail s methods r.behind tail
        ∙ ap not (All-any (λ m. is_one_of m s.terminal_methods) r.behind r.dropped)

-- `root.m₁(…).m₂(…)…`, the chain of calls with these methods.
abbrev pub call_method : Node → Text → Node
call_method node method = call (member false node (identifier method))

abbrev pub call_all : Node → List Text → Node
call_all node [] = node
call_all node (m ∷ ms) = call_all (call_method node m) ms

abbrev IsNamed : Text → Type 0
IsNamed m = is_blank m ≡ false

collect-call_method :
    (node : Node) (done : List Text) (m : Text) (root : Option Text)
    → IsNamed m
    → collect_call_chain node ≡ record { root = root; methods = done }
    → collect_call_chain (call_method node m) ≡ record { root = root; methods = done ++ m ∷ [] }
unfolding collect_call_chain property_name push_method
collect-call_method node done m root h e = rw (e, h) refl

collect-call_all :
    (node : Node) (done ms : List Text) (root : Option Text)
    → All IsNamed ms
    → collect_call_chain node ≡ record { root = root; methods = done }
    → collect_call_chain (call_all node ms) ≡ record { root = root; methods = done ++ ms }
collect-call_all node done [] root h e =
    e ∙ ap (λ l. record { root = root; methods = l }) (sym (append-nil done))
collect-call_all node done (m ∷ ms) root h e =
    collect-call_all (call_method node m) (done ++ m ∷ []) ms root h.1
      (collect-call_method node done m root h.0 e)
    ∙ ap (λ l. record { root = root; methods = l }) (append_assoc done (m ∷ []) ms)

-- The chain that calls non-empty methods on a name is read back as that name and those methods.
pub collect_call_chain-call_all :
    (root : Text) (ms : List Text)
    → All IsNamed ms
    → collect_call_chain (call_all (identifier root) ms) ≡ record { root = some root; methods = ms }
unfolding collect_call_chain qualified_name
collect_call_chain-call_all root ms h = collect-call_all (identifier root) [] ms (some root) h refl
