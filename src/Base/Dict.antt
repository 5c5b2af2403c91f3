-- ===== src/Base/Dict.antt =====
-- Python's `dict` with text keys: the entries in insertion order. A write to a key that is there
-- keeps its place, a new key comes last.
use Prim.Native.String.{String}
use mathlib.Core.Path.{◌≡◌, refl}
use mathlib.Core.Logic.{inl, inr}
use mathlib.Core.Bool.{Bool, true, false}
use mathlib.Core.Option.{Option, none, some}
use mathlib.Core.List.{List, [], ◌∷◌}
use native.Mathlib.Omega.{arith}
use text.Mathlib.Text.{◌==◌}
use text.Mathlib.TextEquality.{eq_iff}
use text.Mathlib.TextPositions.{eq_refl}
use wire_agent.Base.Tests.{if◌then◌else◌, text_cases}
use wire_agent.Base.Lists.{In}

abbrev pub Dict {ℓ} : Type ℓ → Type ℓ
Dict V = List (String × V)

module _ {ℓ} {V : Type ℓ} where
  -- d.get(k)
  unfoldable pub get : Dict V → String → Option V
  get [] k = none
  get ((j, v) ∷ d) k = if j == k then some v else get d k

  -- d[k] = v
  unfoldable pub put : Dict V → String → V → Dict V
  put [] k v = (k, v) ∷ []
  put ((j, w) ∷ d) k v = if j == k then (j, v) ∷ d else (j, w) ∷ put d k v

  -- d.pop(k, None)
  unfoldable pub pop : Dict V → String → Dict V
  pop [] k = []
  pop ((j, v) ∷ d) k = if j == k then d else (j, v) ∷ pop d k

  -- k in d
  abbrev pub has : Dict V → String → Bool
  has d k = elim (get d k) [ none ↦ false | some _ ↦ true ]

  -- No key has two entries.
  abbrev pub IsDict : Dict V → Type ℓ
  IsDict [] = Unit
  IsDict ((k, v) ∷ d) = (get d k ≡ none) × IsDict d

  pub get-put :
      (d : Dict V) (k j : String) (v : V) → get (put d k v) j ≡ (if k == j then some v else get d j)
  unfolding get put
  get-put [] k j v = refl
  get-put ((i, w) ∷ d) k j v = ground (arith, get-put d k j v, eq_iff i k, eq_iff i j, eq_iff k j)

  pub get-put_self : (d : Dict V) (k : String) (v : V) → get (put d k v) k ≡ some v
  get-put_self d k v = simp (get-put, eq_refl)

  pub get-put_ne :
      (d : Dict V) (k j : String) (v : V) → (k == j) ≡ false → get (put d k v) j ≡ get d j
  get-put_ne d k j v h = rw get-put (rw h)

  pub put-IsDict : (d : Dict V) (k : String) (v : V) → IsDict d → IsDict (put d k v)
  unfolding put get
  put-IsDict [] k v h = (refl, tt)
  put-IsDict ((i, w) ∷ d) k v h =
      ground (arith, put-IsDict d k v h.1, get-put d k i v, eq_iff i k, eq_iff k i)

  pub get-pop :
      (d : Dict V) (k j : String) → IsDict d → get (pop d k) j ≡ (if k == j then none else get d j)
  unfolding get pop
  get-pop [] k j h = ground arith
  get-pop ((i, w) ∷ d) k j h = ground (arith, get-pop d k j h.1, eq_iff i k, eq_iff i j, eq_iff k j)

  pub pop-IsDict : (d : Dict V) (k : String) → IsDict d → IsDict (pop d k)
  unfolding pop get
  pop-IsDict [] k h = h
  pop-IsDict ((i, w) ∷ d) k h =
      ground (arith, pop-IsDict d k h.1, get-pop d k i h.1, eq_iff i k, eq_iff k i)

module _ {V : Type 0} where
  pub In-get : (d : Dict V) (k : String) (v : V) → IsDict d → In (k, v) d → get d k ≡ some v
  unfolding get
  In-get [] k v h m = elim m [ ]
  In-get ((i, w) ∷ d) k v h (inl e) = ground (arith, eq_iff i k)
  In-get ((i, w) ∷ d) k v h (inr m) = ground (arith, eq_iff i k, In-get d k v h.1 m)

  pub get-In : (d : Dict V) (k : String) (v : V) → get d k ≡ some v → In (k, v) d
  unfolding get
  get-In [] k v h = absurd (cc)
  get-In ((i, w) ∷ d) k v h = elim (text_cases i k) [
    | inl e ↦ inl (ground (arith, e))
    | inr n ↦ inr (get-In d k v (ground (arith, n)))
  ]
