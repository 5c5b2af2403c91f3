-- ===== src/Ipc/RequestTable/Once.antt =====
-- A request in flight and after its end, over the calls of `RetainedRequestTable`.
use wire_agent.Base.{
  ℕ, zero, suc, String, Bool, false, ◌≡◌, inl, inr, Option, none, some, List, [], ◌∷◌, ◌==◌, eq_iff,
  eq_refl, arith, if◌then◌else◌, length, All, Option-cases,
}
use wire_agent.Base.Dict.{get, get-put, get-pop}
use wire_agent.Ipc.RequestTable.{
  Future, future_at, waiting, result, failed, settle, Inflight, RetainedRequestTable, new, join,
  retained, violation, admit, classify, pin_task, evict, complete, abandon,
}
use wire_agent.Ipc.RequestTable.Keys.{length-pop}
use wire_agent.Ipc.RequestTable.Retention.{
  IsSound, Call, classifying, pinning, completing, abandoning, step, run, step-IsSound,
}

-- The call ends the work of the request.
abbrev pub ends : String → Call → Bool
ends k (classifying j c) = false
ends k (pinning j x) = false
ends k (completing j r) = j == k
ends k (abandoning j e) = j == k

-- What the request in flight under an id compares with, and its future.
abbrev pub work : String → RetainedRequestTable → Option (String × ℕ)
work k t = elim (get t.inflight k) [ none ↦ none | some e ↦ some (e.canonical, e.future) ]

module _ (k c : String) (n : ℕ) where
  classify-work :
      (j d : String) (t : RetainedRequestTable)
      → work k t ≡ some (c, n)
      → work k (classify j d t).1 ≡ some (c, n)
  unfolding classify admit
  classify-work j d t w = elim (Option-cases (get t.inflight j)) [
    | inl a ↦ elim (Option-cases (get t.completed j)) [
      | inl b ↦
          let v : Inflight = record { canonical = d; future = length t.futures; task = none } in
          ground (arith, a, b, get-put t.inflight j k v, eq_iff j k)
      | inr (p, b) ↦ ground (arith, a, b)
    ]
    | inr (x, a) ↦ ground (arith, a)
  ]

  step-work :
      (x : Call) (t : RetainedRequestTable)
      → IsSound t
      → ends k x ≡ false
      → work k t ≡ some (c, n)
      → work k (step x t) ≡ some (c, n)
  unfolding step pin_task complete abandon
  step-work (classifying j d) t h q w = classify-work j d t w
  step-work (pinning j x) t h q w = elim (Option-cases (get t.inflight j)) [
    | inl a ↦ ground (arith, a)
    | inr (y, a) ↦
        let v : Inflight = record y { task = some x } in
        ground (arith, a, get-put t.inflight j k v, eq_iff j k)
  ]
  step-work (completing j r) t h q w = elim (Option-cases (get t.inflight j)) [
    | inl a ↦ ground (arith, a)
    | inr (y, a) ↦ ground (arith, a, get-pop t.inflight j k h.inflight)
  ]
  step-work (abandoning j r) t h q w = elim (Option-cases (get t.inflight j)) [
    | inl a ↦ ground (arith, a)
    | inr (y, a) ↦ ground (arith, a, get-pop t.inflight j k h.inflight)
  ]

  run-work :
      (cs : List Call) (t : RetainedRequestTable)
      → IsSound t
      → All (λ x. ends k x ≡ false) cs
      → work k t ≡ some (c, n)
      → work k (run cs t) ≡ some (c, n)
  unfolding run
  run-work [] t h q g = g
  run-work (x ∷ cs) t h q g =
      run-work cs (step x t) (step-IsSound t h x) q.1 (step-work x t h q.0 g)

  new-work :
      (t : RetainedRequestTable)
      → (classify k c t).0 ≡ new n
      → work k (classify k c t).1 ≡ some (c, n)
  unfolding classify admit
  new-work t h = elim (Option-cases (get t.inflight k)) [
    | inl a ↦ elim (Option-cases (get t.completed k)) [
      | inl b ↦
          let v : Inflight = record { canonical = c; future = length t.futures; task = none } in
          ground (arith, a, b, get-put t.inflight k k v, eq_refl k)
      | inr (p, b) ↦ absurd (ground (arith, a, b))
    ]
    | inr (x, a) ↦ absurd (ground (arith, a))
  ]

  work_classified :
      (d : String) (t : RetainedRequestTable)
      → work k t ≡ some (c, n)
      → (classify k d t).0 ≡ (if c == d then join n else violation)
  unfolding classify
  work_classified d t w = elim (Option-cases (get t.inflight k)) [
    | inl a ↦ absurd (ground (arith, a))
    | inr (x, a) ↦ ground (arith, a)
  ]

-- In a sound table, after a request was classified as new and before it is completed or
-- abandoned, whatever the calls in between, a classification under its id joins the same future
-- when the canonical request is the same and is a violation otherwise.
pub admitted_once :
    (t : RetainedRequestTable) (k c d : String) (n : ℕ) (cs : List Call)
    → IsSound t
    → (classify k c t).0 ≡ new n
    → All (λ x. ends k x ≡ false) cs
    → (classify k d (run cs (classify k c t).1)).0 ≡ (if c == d then join n else violation)
unfolding step
admitted_once t k c d n cs h a q =
    let s = step-IsSound t h (classifying k c) in
    let w = run-work k c n cs (classify k c t).1 s q (new-work k c n t a) in
    work_classified k c n d (run cs (classify k c t).1) w

settle_waiting :
    (xs : List Future) (n : ℕ) (v : Future)
    → future_at xs n ≡ some waiting
    → future_at (settle xs n v) n ≡ some v
unfolding settle
settle_waiting [] n v h = absurd (cc)
settle_waiting (x ∷ xs) zero v h = ground arith
settle_waiting (x ∷ xs) (suc n) v h = settle_waiting xs n v h

-- In a sound table, completing a request in flight whose future is waiting gives that future the
-- response, and the next classification under its id is the retained response when the canonical
-- request is the same and a violation otherwise.
pub complete_retains :
    (t : RetainedRequestTable) (k d r : String) (e : Inflight)
    → IsSound t
    → get t.inflight k ≡ some e
    → future_at t.futures e.future ≡ some waiting
    → ((classify k d (complete k r t)).0 ≡ (if e.canonical == d then retained r else violation))
      × (future_at (complete k r t).futures e.future ≡ some (result r))
unfolding classify complete
complete_retains t k d r e h g w =
    let v : String × String = (e.canonical, r) in
    (
      ground (arith, g, get-pop t.inflight k k h.inflight, eq_refl k, get-put (evict t) k k v),
      ground (arith, g, settle_waiting t.futures e.future (result r) w),
    )

-- In a sound table, abandoning a request in flight whose future is waiting gives that future the
-- error, and the next classification under its id is new, with a new future.
pub abandon_forgets :
    (t : RetainedRequestTable) (k d x : String) (e : Inflight)
    → IsSound t
    → get t.inflight k ≡ some e
    → future_at t.futures e.future ≡ some waiting
    → ((classify k d (abandon k x t)).0 ≡ new (length (abandon k x t).futures))
      × (future_at (abandon k x t).futures e.future ≡ some (failed x))
unfolding classify abandon admit
abandon_forgets t k d x e h g w = (
  elim (h.apart k) [
    | inl a ↦ absurd (ground (arith, a))
    | inr a ↦ ground (
      arith,
      g,
      a,
      get-pop t.inflight k k h.inflight,
      eq_refl k,
      length-pop t.inflight k,
      h.inflight_bound,
    )
  ],
  ground (arith, g, settle_waiting t.futures e.future (failed x) w),
)
