-- ===== src/Prelude/Outcomes.antt =====
-- Postconditions of computations that may throw, one rule for each way to build a computation.
use mathlib.Core.Path.{◌≡◌, refl, subst}
use mathlib.Core.Bool.{Bool, true, false}
use mathlib.Core.List.{List}
use Prim.Native.Nat.{ℕ}
use cliptown_lib_core.Prelude.Tests.{if◌then◌else◌}
use cliptown_lib_core.Prelude.Lists.{All}
use cliptown_lib_core.Prelude.Results.{
  Error, Result, ok, err, ◌>>=◌, ◌>>◌, require, traverse, traverse-All,
}

-- Whatever `m` returns satisfies `Q`.
pub record Ensures {ℓ κ} {A : Type ℓ} (Q : A → Type κ) (m : Result A) : Type (ℓ ⊔ κ) where
  pub at : (a : A) → m ≡ ok a → Q a

module _ {ℓ κ} {A : Type ℓ} {Q : A → Type κ} where
  pub Ensures-ok : (a : A) → Q a → Ensures Q (ok a)
  Ensures-ok a q = record { at = λ b e. subst Q (cc) q }

  pub Ensures-err : (e : Error) → Ensures Q (err e)
  Ensures-err e = record { at = λ b h. cc }

  pub Ensures-if :
      (b : Bool) (m n : Result A)
      → (b ≡ true → Ensures Q m)
      → (b ≡ false → Ensures Q n)
      → Ensures Q (if b then m else n)
  Ensures-if true m n hm hn = hm refl
  Ensures-if false m n hm hn = hn refl

  pub Ensures-require :
      (b : Bool) (s : List ℕ) (k : Result A)
      → (b ≡ true → Ensures Q k)
      → Ensures Q (require b s >> k)
  Ensures-require true s k h = h refl
  Ensures-require false s k h = Ensures-err _

  pub Ensures-then :
      (m : Result (Unit {0})) (k : Result A) → (m ≡ ok tt → Ensures Q k) → Ensures Q (m >> k)
  Ensures-then (ok tt) k h = h refl
  Ensures-then (err e) k h = Ensures-err e

module _ {ℓ κ μ ν} {A : Type ℓ} {B : Type κ} {P : A → Type μ} {Q : B → Type ν} where
  pub Ensures-bind :
      (m : Result A) (f : A → Result B)
      → Ensures P m
      → ((a : A) → P a → Ensures Q (f a))
      → Ensures Q (m >>= f)
  Ensures-bind (ok a) f hm hf = hf a (hm.at a refl)
  Ensures-bind (err e) f hm hf = Ensures-err e

module _ {ℓ κ ν} {A : Type ℓ} {B : Type κ} {Q : B → Type ν} where
  -- The rest of a block may use that a step returned, and what.
  pub Ensures-step :
      (m : Result A) (f : A → Result B)
      → ((a : A) → m ≡ ok a → Ensures Q (f a))
      → Ensures Q (m >>= f)
  Ensures-step (ok a) f hf = hf a refl
  Ensures-step (err e) f hf = Ensures-err e

  pub Ensures-traverse :
      (f : A → Result B)
      → ((x : A) → Ensures Q (f x))
      → (xs : List A) → Ensures (All Q) (traverse f xs)
  Ensures-traverse f h xs = record {
    at = λ ys e. traverse-All f Q (λ x y hy. (h x).at y hy) xs ys e;
  }
