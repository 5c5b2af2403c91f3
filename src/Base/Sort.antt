-- ===== src/Base/Sort.antt =====
-- Python's `sorted` with a text key, which keeps the order of equal keys.
use Prim.Native.String.{String, compare}
use text.Mathlib.Text.{is_le}
use mathlib.Core.Path.{◌≡◌}
use mathlib.Core.Logic.{◌↔◌, ◌⊎◌}
use mathlib.Core.List.{List, [], ◌∷◌}
use native.Mathlib.Omega.{arith}
use wire_agent.Base.Tests.{if◌then◌else◌}
use wire_agent.Base.Lists.{In}

module _ {A : Type 0} (key : A → String) where
  insert_by : A → List A → List A
  insert_by a [] = a ∷ []
  insert_by a (x ∷ xs) = if is_le (compare (key a) (key x)) then a ∷ x ∷ xs else x ∷ insert_by a xs

  unfoldable pub sort_by : List A → List A
  unfolding insert_by
  sort_by [] = []
  sort_by (x ∷ xs) = insert_by x (sort_by xs)

  In-insert_by : (y a : A) (xs : List A) → In y (insert_by a xs) ↔ ((y ≡ a) ⊎ In y xs)
  unfolding insert_by
  In-insert_by y a [] = ground arith
  In-insert_by y a (x ∷ xs) = ground (arith, In-insert_by y a xs)

  pub In-sort_by : (y : A) (xs : List A) → In y (sort_by xs) ↔ In y xs
  unfolding sort_by
  In-sort_by y [] = (λ h. h, λ h. h)
  In-sort_by y (x ∷ xs) = ground (arith, In-insert_by y x (sort_by xs), In-sort_by y xs)
