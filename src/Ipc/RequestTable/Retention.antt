-- ===== src/Ipc/RequestTable/Retention.antt =====
-- What the table keeps of a request, over any sequence of calls.
use wire_agent.Base.{
  ℕ, suc, ◌≤◌, String, ◌||◌, ◌≡◌, refl, ◌⊎◌, inl, inr, none, some, List, [], ◌∷◌, ◌==◌, eq_iff, ltb,
  leb, arith, if◌then◌else◌, length, Option-cases, Bool-cases, subst,
}
use wire_agent.Base.Dict.{Dict, get, pop, IsDict, get-put, put-IsDict, get-pop, pop-IsDict}
use wire_agent.Ipc.RequestTable.{
  Inflight, RetainedRequestTable, new_table, move_to_end, admit, classify, pin_task, drop_oldest,
  evict, complete, abandon,
}
use wire_agent.Ipc.RequestTable.Keys.{
  length-put, length-pop, moved-IsDict, get-moved, length-append_one,
}

-- A request is in flight or completed, not both; each is there once and within the capacity.
pub record IsSound (t : RetainedRequestTable) : Type 0 where
  pub inflight : IsDict t.inflight
  pub completed : IsDict t.completed
  pub inflight_bound : length t.inflight ≤ t.max_inflight
  pub completed_bound : length t.completed ≤ t.max_completed
  pub room : 1 ≤ t.max_completed
  pub apart : (k : String) → (get t.inflight k ≡ none) ⊎ (get t.completed k ≡ none)

-- Eviction makes room and adds nothing.
module _ (n : ℕ) where
  abbrev shrunk : Dict (String × String) → Dict (String × String)
  shrunk d = if leb n (length d) then drop_oldest d else d

  shrunk_room : (d : Dict (String × String)) → length d ≤ n → 1 ≤ n → suc (length (shrunk d)) ≤ n
  shrunk_room [] h r = ground arith
  shrunk_room (x ∷ d) h r = ground arith

  shrunk-IsDict : (d : Dict (String × String)) → IsDict d → IsDict (shrunk d)
  shrunk-IsDict [] h = ground arith
  shrunk-IsDict (x ∷ d) h = ground arith

  get-shrunk : (d : Dict (String × String)) (k : String) → get d k ≡ none → get (shrunk d) k ≡ none
  unfolding get
  get-shrunk [] k h = ground arith
  get-shrunk (x ∷ d) k h = ground arith

-- A call of the table's owner.
pub data Call : Type 0 where
  classifying pinning completing abandoning : String → String → Call

unfoldable pub step : Call → RetainedRequestTable → RetainedRequestTable
step (classifying k c) t = (classify k c t).1
step (pinning k x) t = pin_task k x t
step (completing k r) t = complete k r t
step (abandoning k e) t = abandon k e t

unfoldable pub run : List Call → RetainedRequestTable → RetainedRequestTable
run [] t = t
run (c ∷ cs) t = run cs (step c t)

module _ (t : RetainedRequestTable) (h : IsSound t) where
  admit-IsSound :
      (k c : String) → get t.inflight k ≡ none → get t.completed k ≡ none → IsSound (admit k c t).1
  unfolding admit
  admit-IsSound k c n m = elim (Bool-cases (leb t.max_inflight (length t.inflight))) [
    | inl e ↦ rw (e, admit) h
    | inr e ↦
        let v : Inflight = record { canonical = c; future = length t.futures; task = none } in
        rw (e, admit)
          (record {
            inflight = put-IsDict t.inflight k v h.inflight;
            completed = h.completed;
            inflight_bound = ground (arith, length-put t.inflight k v);
            completed_bound = h.completed_bound;
            room = h.room;
            apart = λ j. ground (arith, h.apart j, get-put t.inflight k j v, eq_iff k j);
          })
  ]

  classify-IsSound : (k c : String) → IsSound (classify k c t).1
  unfolding classify move_to_end
  classify-IsSound k c = elim (Option-cases (get t.inflight k)) [
    | inl n ↦ elim (Option-cases (get t.completed k)) [
      | inl m ↦ rw (n, m, classify) (admit-IsSound k c n m)
      | inr (d, m) ↦ elim (Bool-cases (d.0 == c)) [
        | inl e ↦
            rw (n, m, e, classify)
              (record {
                inflight = h.inflight;
                completed = moved-IsDict t.completed k (d.0, d.1) h.completed;
                inflight_bound = h.inflight_bound;
                completed_bound = ground (
                  arith,
                  length-append_one (pop t.completed k) (k, (d.0, d.1)),
                  length-pop t.completed k,
                  h.completed_bound,
                );
                room = h.room;
                apart = λ j. ground (
                  arith,
                  h.apart j,
                  get-moved t.completed k (d.0, d.1) h.completed j,
                  eq_iff k j,
                );
              })
        | inr e ↦ rw (n, m, e, classify) h
      ]
    ]
    | inr (e, n) ↦ elim (Bool-cases (e.canonical == c)) [
      | inl q ↦ rw (n, q, classify) h
      | inr q ↦ rw (n, q, classify) h
    ]
  ]

  pin-IsSound : (k x : String) → IsSound (pin_task k x t)
  unfolding pin_task
  pin-IsSound k x = elim (Option-cases (get t.inflight k)) [
    | inl n ↦ rw (n, pin_task) h
    | inr (e, n) ↦
        let v : Inflight = record e { task = some x } in
        rw (n, pin_task)
          (record {
            inflight = put-IsDict t.inflight k v h.inflight;
            completed = h.completed;
            inflight_bound = ground (arith, n, length-put t.inflight k v, h.inflight_bound);
            completed_bound = h.completed_bound;
            room = h.room;
            apart = λ j. ground (arith, n, h.apart j, get-put t.inflight k j v, eq_iff k j);
          })
  ]

  complete-IsSound : (k r : String) → IsSound (complete k r t)
  unfolding complete evict
  complete-IsSound k r = elim (Option-cases (get t.inflight k)) [
    | inl n ↦ rw (n, complete) h
    | inr (e, n) ↦
        let d = shrunk t.max_completed t.completed in
        let v : String × String = (e.canonical, r) in
        rw (n, complete)
          (record {
            inflight = pop-IsDict t.inflight k h.inflight;
            completed = put-IsDict d k v (shrunk-IsDict t.max_completed t.completed h.completed);
            inflight_bound = ground (arith, n, length-pop t.inflight k, h.inflight_bound);
            completed_bound = ground (
              arith,
              length-put d k v,
              shrunk_room t.max_completed t.completed h.completed_bound h.room,
            );
            room = h.room;
            apart = λ j. ground (
              arith,
              h.apart j,
              get-pop t.inflight k j h.inflight,
              get-put d k j v,
              get-shrunk t.max_completed t.completed j,
              eq_iff k j,
            );
          })
  ]

  abandon-IsSound : (k e : String) → IsSound (abandon k e t)
  unfolding abandon
  abandon-IsSound k e = elim (Option-cases (get t.inflight k)) [
    | inl n ↦ rw (n, abandon) h
    | inr (x, n) ↦
        rw (n, abandon)
          (record {
            inflight = pop-IsDict t.inflight k h.inflight;
            completed = h.completed;
            inflight_bound = ground (arith, n, length-pop t.inflight k, h.inflight_bound);
            completed_bound = h.completed_bound;
            room = h.room;
            apart = λ j. ground (arith, h.apart j, get-pop t.inflight k j h.inflight);
          })
  ]

  pub step-IsSound : (c : Call) → IsSound (step c t)
  unfolding step
  step-IsSound (classifying k c) = classify-IsSound k c
  step-IsSound (pinning k x) = pin-IsSound k x
  step-IsSound (completing k r) = complete-IsSound k r
  step-IsSound (abandoning k e) = abandon-IsSound k e

-- A table that starts sound stays sound, whatever the calls.
pub run-IsSound : (cs : List Call) (t : RetainedRequestTable) → IsSound t → IsSound (run cs t)
unfolding run
run-IsSound [] t h = h
run-IsSound (c ∷ cs) t h = run-IsSound cs (step c t) (step-IsSound t h c)

-- After any calls on a new table, no id is in flight and completed at once, none has two entries,
-- and the requests in flight and the completed ones are within their capacities.
pub new_table-IsSound :
    (i c : ℕ) (t : RetainedRequestTable) (cs : List Call)
    → new_table i c ≡ some t
    → IsSound (run cs t)
unfolding new_table get
new_table-IsSound i c t cs e = elim (Bool-cases (ltb i 1 || ltb c 1)) [
  | inl h ↦ absurd (ground (arith, h))
  | inr h ↦
      let e' : record {
        max_inflight = i;
        max_completed = c;
        inflight = [];
        completed = [];
        futures = [];
      }
          ≡ t =
        ground (arith, h) in
      run-IsSound cs t (
        subst IsSound e' (record {
          inflight = tt;
          completed = tt;
          inflight_bound = omega arith;
          completed_bound = omega arith;
          room = ground arith;
          apart = λ k. inl refl;
        }))
]
