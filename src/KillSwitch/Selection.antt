-- ===== src/KillSwitch/Selection.antt =====
-- Which delivery a turn of the drain selects.
use wire_agent.Base.{
  ℕ, zero, suc, ◌+◌, ◌≤◌, Bool, true, false, not, ◌&&◌, ◌≡◌, refl, ◌⊎◌, inl, inr, Option, none,
  some, List, [], ◌∷◌, ltb, leb, arith, subst,
}
use wire_agent.KillSwitch.{Listener, was_attempted, better, select}

abbrev pub listener_at : ℕ → List Listener → Option Listener
listener_at n [] = none
listener_at zero (x ∷ xs) = some x
listener_at (suc n) (x ∷ xs) = listener_at n xs

-- The listener with this number has not been told of its next trip, is not being told now, and was
-- not tried for it in this drain.
abbrev pub is_due : ℕ → List (ℕ × ℕ) → ℕ → Listener → Bool
is_due g attempted i x =
    ltb x.generation g && (not x.in_progress && not (was_attempted attempted i (x.generation + 1)))

abbrev at_most : ℕ → Option (ℕ × ℕ) → Bool
at_most t none = true
at_most t (some c) = leb t c.1

better-some :
    (g : ℕ) (a : List (ℕ × ℕ)) (i : ℕ) (x : Listener) (c : Option (ℕ × ℕ)) (j t : ℕ)
    → better g a i x c ≡ some (j, t)
    → (c ≡ some (j, t)) ⊎ ((is_due g a i x ≡ true) × (j ≡ i) × (t ≡ x.generation + 1))
better-some g a i x none j t h = ground arith
better-some g a i x (some c) j t h = ground arith

better-none :
    (g : ℕ) (a : List (ℕ × ℕ)) (i : ℕ) (x : Listener) (c : Option (ℕ × ℕ))
    → better g a i x c ≡ none
    → (c ≡ none) × (is_due g a i x ≡ false)
better-none g a i x none h = ground arith
better-none g a i x (some c) h = absurd (ground arith)

better_least :
    (g : ℕ) (a : List (ℕ × ℕ)) (i : ℕ) (x : Listener) (c : Option (ℕ × ℕ)) (t : ℕ)
    → at_most t (better g a i x c) ≡ true
    → (at_most t c ≡ true) × (is_due g a i x ≡ true → t ≤ x.generation + 1)
better_least g a i x none t h = ground arith
better_least g a i x (some c) t h = ground arith

at_cases :
    (k : ℕ) (x y : Listener) (xs : List Listener)
    → listener_at k (x ∷ xs) ≡ some y
    → ((k ≡ 0) × (x ≡ y)) ⊎ ((m : ℕ) × (k ≡ suc m) × (listener_at m xs ≡ some y))
at_cases zero x y xs h = inl (refl, ground (arith, h))
at_cases (suc k) x y xs h = inr (k, refl, h)

module _ (g : ℕ) (a : List (ℕ × ℕ)) where
  select-some :
      (i : ℕ) (xs : List Listener) (c : Option (ℕ × ℕ)) (j t : ℕ)
      → select g a i xs c ≡ some (j, t)
      → (c ≡ some (j, t))
        ⊎ ((k : ℕ) × (x : Listener) × (j ≡ i + k)
            × (listener_at k xs ≡ some x)
            × (is_due g a j x ≡ true)
            × (t ≡ x.generation + 1))
  unfolding select
  select-some i [] c j t h = inl h
  select-some i (x ∷ xs) c j t h = elim (select-some (suc i) xs (better g a i x c) j t h) [
    | inl e ↦ elim (better-some g a i x c j t e) [
      | inl q ↦ inl q
      | inr (d, p, q) ↦ inr (0, x, omega (arith, p), refl, rw p d, q)
    ]
    | inr (k, y, p, n, d, q) ↦ inr (suc k, y, omega (arith, p), n, d, q)
  ]

  select-none :
      (i : ℕ) (xs : List Listener) (c : Option (ℕ × ℕ))
      → select g a i xs c ≡ none
      → (c ≡ none)
        × ((k : ℕ) (x : Listener) → listener_at k xs ≡ some x → is_due g a (i + k) x ≡ false)
  unfolding select
  select-none i [] c h = (h, λ k x e. absurd (cc))
  select-none i (x ∷ xs) c h =
      let ih = select-none (suc i) xs (better g a i x c) h in
      let b = better-none g a i x c ih.0 in
      (
        b.0,
        λ k y e. elim (at_cases k x y xs e) [
          | inl (z, q) ↦ ground (arith, z, q, b.1)
          | inr (m, z, q) ↦ let n : i + k ≡ suc i + m = omega (arith, z) in rw n (ih.1 m y q)
        ],
      )

  select_least :
      (i : ℕ) (xs : List Listener) (c : Option (ℕ × ℕ)) (j t : ℕ)
      → select g a i xs c ≡ some (j, t)
      → (at_most t c ≡ true)
        × ((k : ℕ) (x : Listener)
            → listener_at k xs ≡ some x
            → is_due g a (i + k) x ≡ true
            → t ≤ x.generation + 1)
  unfolding select
  select_least i [] c j t h = (ground (arith, h), λ k x e. absurd (cc))
  select_least i (x ∷ xs) c j t h =
      let ih = select_least (suc i) xs (better g a i x c) j t h in
      let b = better_least g a i x c t ih.0 in
      (
        b.0,
        λ k y e d. elim (at_cases k x y xs e) [
          | inl (z, q) ↦ ground (arith, z, q, b.1, d)
          | inr (m, z, q) ↦ let n : i + k ≡ suc i + m = omega (arith, z) in ih.1 m y q (rw n at d)
        ],
      )

-- When the drain selects a listener and a generation, that listener is behind the trip
-- generation, is not being told and was not tried for this generation in this drain; the
-- generation is the one after the last it was told of; and no other listener of this kind waits
-- for an earlier one.
pub select-IsLeast :
    (g : ℕ) (attempted : List (ℕ × ℕ)) (xs : List Listener) (j t : ℕ)
    → select g attempted 0 xs none ≡ some (j, t)
    → ((x : Listener) × (listener_at j xs ≡ some x)
        × (is_due g attempted j x ≡ true)
        × (t ≡ x.generation + 1))
      × ((k : ℕ) (y : Listener)
          → listener_at k xs ≡ some y
          → is_due g attempted k y ≡ true
          → t ≤ y.generation + 1)
select-IsLeast g attempted xs j t h = (
  elim (select-some g attempted 0 xs none j t h) [
    | inl e ↦ absurd (cc)
    | inr (k, x, p, n, d, q) ↦ let z : k ≡ j = omega (arith, p) in (x, rw z at n, d, q)
  ],
  λ k y e d.
      let z : k ≡ 0 + k = omega arith in
      (select_least g attempted 0 xs none j t h).1 k y e
        (subst (λ m. is_due g attempted m y ≡ true) z d),
)

-- The drain stops only where no listener is due.
pub select_stops :
    (g : ℕ) (attempted : List (ℕ × ℕ)) (xs : List Listener)
    → select g attempted 0 xs none ≡ none
    → (k : ℕ) (x : Listener) → listener_at k xs ≡ some x
    → is_due g attempted k x ≡ false
select_stops g attempted xs h k x e =
    let z : 0 + k ≡ k = omega arith in
    subst (λ m. is_due g attempted m x ≡ false) z ((select-none g attempted 0 xs none h).1 k x e)
