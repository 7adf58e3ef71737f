-- ===== src/Prelude/Results.antt =====
-- What a JavaScript function returns or throws, and loops that stop at the first throw.
use mathlib.Core.Path.{◌≡◌, refl}
use mathlib.Core.Logic.{◌⊎◌, inl, inr}
use mathlib.Core.Bool.{Bool, true, false}
use mathlib.Core.List.{List, [], ◌∷◌}
use Prim.Native.Nat.{ℕ}
use cliptown_lib_core.Prelude.Lists.{All}

-- `error m` is a thrown `Error` with message `m` (code units), `type_error` a `TypeError` of the
-- engine. `outside` marks a document with a value of a type that the model does not follow.
pub data Error : Type 0 where
  error : List ℕ → Error
  type_error outside : Error

pub data Result {ℓ} (A : Type ℓ) : Type ℓ where
  err : Error → Result A
  ok : A → Result A

abbrev pub is_ok {ℓ} : {A : Type ℓ} → Result A → Bool
is_ok (ok a) = true
is_ok (err e) = false

-- `if (!test) fail(message)`.
abbrev pub require : (test : Bool) (message : List ℕ) → Result (Unit {0})
require false message = err (error message)
require true message = ok tt

-- What follows runs where nothing was thrown before it.
infixl 5 ◌>>=◌
abbrev pub ◌>>=◌ {ℓ κ} :
    {A : Type ℓ} {B : Type κ} (first : Result A) (next : A → Result B) → Result B
err e >>= next = err e
ok a >>= next = next a

infixl 5 ◌>>◌
abbrev pub ◌>>◌ {κ} : {B : Type κ} (first : Result (Unit {0})) (next : Result B) → Result B
first >> next = first >>= λ done. next

-- `array.map(f)` and `for (const x of array)` where the body may throw.
unfoldable pub traverse {ℓ κ} :
    {A : Type ℓ} {B : Type κ} → (A → Result B) → List A → Result (List B)
traverse f [] = ok []
traverse f (x ∷ xs) = do y ← f x; ys ← traverse f xs; ok (y ∷ ys)

unfoldable pub for_each {ℓ} : {A : Type ℓ} → (A → Result (Unit {0})) → List A → Result (Unit {0})
for_each f [] = ok tt
for_each f (x ∷ xs) = f x >> for_each f xs

-- To split on a computed result and keep the equation.
pub Result-cases {ℓ} :
    {A : Type ℓ} (m : Result A) → ((a : A) × (m ≡ ok a)) ⊎ ((e : Error) × (m ≡ err e))
Result-cases (ok a) = inl (a, refl)
Result-cases (err e) = inr (e, refl)

-- Inversion of a successful bind.
pub >>=-eq-ok {ℓ κ} :
    {A : Type ℓ} {B : Type κ} (first : Result A) (next : A → Result B) {last : B}
    → (first >>= next) ≡ ok last
    → (a : A) × (first ≡ ok a) × (next a ≡ ok last)
>>=-eq-ok (err e) next returned = cc
>>=-eq-ok (ok a) next returned = (a, refl, returned)

pub require-eq-ok : (b : Bool) (m : List ℕ) {u : Unit {0}} → require b m ≡ ok u → b ≡ true
require-eq-ok true m h = refl
require-eq-ok false m h = cc

pub >>-eq-ok {ℓ} :
    {B : Type ℓ} (m : Result (Unit {0})) (k : Result B) {b : B}
    → (m >> k) ≡ ok b
    → (m ≡ ok tt) × (k ≡ ok b)
>>-eq-ok (ok tt) k h = (refl, h)
>>-eq-ok (err e) k h = cc

pub require->>-eq-ok {ℓ} :
    {B : Type ℓ} (t : Bool) (m : List ℕ) (k : Result B) {b : B}
    → (require t m >> k) ≡ ok b
    → (t ≡ true) × (k ≡ ok b)
require->>-eq-ok true m k h = (refl, h)
require->>-eq-ok false m k h = cc

module _ {ℓ κ} {A : Type ℓ} {B : Type κ} (f : A → Result B) where
  pub traverse-cons :
      (x : A) (xs : List A) {ys : List B}
      → traverse f (x ∷ xs) ≡ ok ys
      → (y : B) × (zs : List B) × (f x ≡ ok y) × (traverse f xs ≡ ok zs) × (ys ≡ y ∷ zs)
  unfolding traverse
  traverse-cons x xs {ys} e =
      let (y, hy, e') = >>=-eq-ok (f x) (λ y. traverse f xs >>= λ zs. ok (y ∷ zs)) e in
      let (zs, hz, e'') = >>=-eq-ok (traverse f xs) (λ zs. ok (y ∷ zs)) e' in (y, zs, hy, hz, cc)

  -- What holds of each result of the body holds of every element of a loop's result.
  pub traverse-All {μ} :
      (Q : B → Type μ)
      → ((x : A) (y : B) → f x ≡ ok y → Q y)
      → (xs : List A) (ys : List B) → traverse f xs ≡ ok ys
      → All Q ys
  unfolding traverse
  traverse-All Q h [] [] e = tt
  traverse-All Q h [] (y ∷ ys) e = cc
  traverse-All Q h (x ∷ xs) ys e =
      let (y, zs, hy, hz, same) = traverse-cons x xs e in
      rw same (h x y hy, traverse-All Q h xs zs hz)

module _ {ℓ} {A : Type ℓ} (f : A → Result (Unit {0})) where
  pub for_each-All : (xs : List A) → for_each f xs ≡ ok tt → All (λ x. f x ≡ ok tt) xs
  unfolding for_each
  for_each-All [] e = tt
  for_each-All (x ∷ xs) e =
      let (here, later) = >>-eq-ok (f x) (for_each f xs) e in (here, for_each-All xs later)
