-- ===== src/Base/Heap.antt =====
-- Objects that are shared by reference: a list of them, where a reference is a position. A new
-- object comes last, so that its reference is new.
use Prim.Native.Nat.{ℕ, zero, suc, ◌<◌}
use mathlib.Core.Path.{◌≡◌, refl}
use mathlib.Core.Logic.{◌≢◌}
use mathlib.Core.Option.{Option, none, some}
use mathlib.Core.List.{List, [], ◌∷◌, ◌++◌}
use native.Mathlib.Omega.{arith}
use wire_agent.Base.Lists.{length}

module _ {A : Type 0} where
  unfoldable pub at : List A → ℕ → Option A
  at [] n = none
  at (x ∷ xs) zero = some x
  at (x ∷ xs) (suc n) = at xs n

  unfoldable pub set_at : List A → ℕ → A → List A
  set_at [] n v = []
  set_at (x ∷ xs) zero v = v ∷ xs
  set_at (x ∷ xs) (suc n) v = x ∷ set_at xs n v

  pub length-set_at : (xs : List A) (n : ℕ) (v : A) → length (set_at xs n v) ≡ length xs
  unfolding set_at
  length-set_at [] n v = refl
  length-set_at (x ∷ xs) zero v = refl
  length-set_at (x ∷ xs) (suc n) v = omega (arith, length-set_at xs n v)

  pub at-set_at_same :
      (xs : List A) (n : ℕ) (v x : A) → at xs n ≡ some x → at (set_at xs n v) n ≡ some v
  unfolding at set_at
  at-set_at_same [] n v x h = absurd (cc)
  at-set_at_same (y ∷ xs) zero v x h = refl
  at-set_at_same (y ∷ xs) (suc n) v x h = at-set_at_same xs n v x h

  pub at-set_at_other : (xs : List A) (n m : ℕ) (v : A) → n ≢ m → at (set_at xs n v) m ≡ at xs m
  unfolding at set_at
  at-set_at_other [] n m v h = refl
  at-set_at_other (y ∷ xs) zero zero v h = absurd (h refl)
  at-set_at_other (y ∷ xs) zero (suc m) v h = refl
  at-set_at_other (y ∷ xs) (suc n) zero v h = refl
  at-set_at_other (y ∷ xs) (suc n) (suc m) v h = at-set_at_other xs n m v (ground (arith, h))

  pub at-append :
      (xs : List A) (n : ℕ) (v x : A) → at xs n ≡ some x → at (xs ++ (v ∷ [])) n ≡ some x
  unfolding at
  at-append [] n v x h = absurd (cc)
  at-append (y ∷ xs) zero v x h = h
  at-append (y ∷ xs) (suc n) v x h = at-append xs n v x h

  pub at-append_new : (xs : List A) (v : A) → at (xs ++ (v ∷ [])) (length xs) ≡ some v
  unfolding at
  at-append_new [] v = refl
  at-append_new (y ∷ xs) v = at-append_new xs v

  pub at-length : (xs : List A) (n : ℕ) (x : A) → at xs n ≡ some x → n < length xs
  unfolding at
  at-length [] n x h = absurd (cc)
  at-length (y ∷ xs) zero x h = omega arith
  at-length (y ∷ xs) (suc n) x h = omega (arith, at-length xs n x h)
