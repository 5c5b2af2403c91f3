-- ===== src/Ipc/RequestTable/Keys.antt =====
-- The number of entries of a `dict`, and the entry that comes last.
use wire_agent.Base.{
  suc, String, ◌≡◌, refl, inl, inr, none, some, [], ◌∷◌, ◌++◌, ◌==◌, eq_iff, eq_refl, arith,
  if◌then◌else◌, length, Option-cases,
}
use wire_agent.Base.Dict.{Dict, get, put, pop, has, IsDict, get-pop, pop-IsDict}

module _ {V : Type 0} where
  pub length-put :
      (d : Dict V) (k : String) (v : V)
      → length (put d k v) ≡ (if has d k then length d else suc (length d))
  unfolding get put
  length-put [] k v = refl
  length-put ((j, w) ∷ d) k v = ground (arith, length-put d k v)

  pub length-pop :
      (d : Dict V) (k : String)
      → length d ≡ (if has d k then suc (length (pop d k)) else length (pop d k))
  unfolding get pop
  length-pop [] k = refl
  length-pop ((j, w) ∷ d) k = ground (arith, length-pop d k)

  get-append_none :
      (d : Dict V) (k j : String) (v : V)
      → get d j ≡ none
      → get (d ++ ((k, v) ∷ [])) j ≡ (if k == j then some v else none)
  unfolding get
  get-append_none [] k j v h = refl
  get-append_none ((i, w) ∷ d) k j v h = ground (arith, get-append_none d k j v)

  get-append_some :
      (d : Dict V) (k j : String) (v w : V) → get d j ≡ some w → get (d ++ ((k, v) ∷ [])) j ≡ some w
  unfolding get
  get-append_some [] k j v x h = absurd (cc)
  get-append_some ((i, w) ∷ d) k j v x h = ground (arith, get-append_some d k j v x)

  append-IsDict :
      (d : Dict V) (k : String) (v : V) → get d k ≡ none → IsDict d → IsDict (d ++ ((k, v) ∷ []))
  unfolding get
  append-IsDict [] k v n h = (refl, tt)
  append-IsDict ((i, w) ∷ d) k v n h =
      ground (arith, get-append_none d k i v h.0, append-IsDict d k v, h, eq_iff i k, eq_iff k i)

  module _ (d : Dict V) (k : String) (v : V) (h : IsDict d) where
    popped : get (pop d k) k ≡ none
    popped = ground (arith, get-pop d k k h, eq_refl k)

    -- An entry moved to the end is still the one entry of its key, and the others are as before.
    pub moved-IsDict : IsDict (pop d k ++ ((k, v) ∷ []))
    moved-IsDict = append-IsDict (pop d k) k v popped (pop-IsDict d k h)

    pub get-moved :
        (j : String) → get (pop d k ++ ((k, v) ∷ [])) j ≡ (if k == j then some v else get d j)
    get-moved j = elim (Option-cases (get (pop d k) j)) [
      | inl e ↦ ground (arith, get-append_none (pop d k) k j v e, get-pop d k j h)
      | inr (x, e) ↦ ground (arith, get-append_some (pop d k) k j v x e, get-pop d k j h)
    ]

  pub length-append_one : (d : Dict V) (x : String × V) → length (d ++ (x ∷ [])) ≡ suc (length d)
  length-append_one [] x = refl
  length-append_one (y ∷ d) x = ground (arith, length-append_one d x)
