-- ===== src/Limits/TokenBucket/Window.antt =====
-- The timestamps in a window, and windows within windows.
use wire_agent.Base.{ℕ, ◌≤◌, ◌≡◌, refl, ap, List, [], ◌∷◌, ◌++◌, arith, length}
use wire_agent.Limits.TokenBucket.{in_window}

module _ (w : ℕ) where
  -- A window within a later one.
  pub in_window_twice :
      (m n : ℕ) (ts : List ℕ) → m ≤ n → in_window n w (in_window m w ts) ≡ in_window n w ts
  unfolding in_window
  in_window_twice m n [] h = refl
  in_window_twice m n (t ∷ ts) h = ground (arith, in_window_twice m n ts h)

  pub in_window_later :
      (m n : ℕ) (ts : List ℕ) → m ≤ n → length (in_window n w ts) ≤ length (in_window m w ts)
  unfolding in_window
  in_window_later m n [] h = omega arith
  in_window_later m n (t ∷ ts) h = ground (arith, in_window_later m n ts h)

  pub in_window-append :
      (n : ℕ) (xs ys : List ℕ) → in_window n w (xs ++ ys) ≡ in_window n w xs ++ in_window n w ys
  unfolding in_window
  in_window-append n [] ys = refl
  in_window-append n (x ∷ xs) ys = ground (arith, in_window-append n xs ys)

  pub in_window_one : (n t : ℕ) → length (in_window n w (t ∷ [])) ≤ 1
  unfolding in_window
  in_window_one n t = ground arith

pub append_nil : (xs : List ℕ) → xs ++ [] ≡ xs
append_nil [] = refl
append_nil (x ∷ xs) = ap (λ r. x ∷ r) (append_nil xs)

pub append_one : (xs : List ℕ) (y : ℕ) (ys : List ℕ) → xs ++ (y ∷ ys) ≡ (xs ++ (y ∷ [])) ++ ys
append_one [] y ys = refl
append_one (x ∷ xs) y ys = ap (λ r. x ∷ r) (append_one xs y ys)
