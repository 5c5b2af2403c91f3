-- ===== src/KillSwitch/Revocation.antt =====
-- What a trip of the `KillSwitch` owes to its critical listeners, over any sequence of its steps.
use wire_agent.Base.{
  ℕ, zero, suc, ◌+◌, ◌-◌, ◌≤◌, String, Bool, true, false, ◌&&◌, ◌≡◌, ◌↔◌, ◌⊎◌, inl, inr, none, List,
  [], ◌∷◌, eqb, ltb, arith, if◌then◌else◌, All, Bool-cases, Option-cases,
}
use wire_agent.KillSwitch.{
  abort_drain, HotFile, absent, present, Listener, KillSwitch, active_from, sync,
  has_pending_critical, start_delivery, register, add_trip_listener, select, amend, begin_delivery,
  ended, end_delivery, observe, execution_blocked_now, trip, reset,
}

-- What can happen to the switch, in any order and from any thread; a delivery that ends may be of
-- any listener and generation.
pub data Event : Type 0 where
  adding : String → Bool → Event
  beginning : List (ℕ × ℕ) → Event
  ending : ℕ → ℕ → Bool → Event
  observing checking_execution aborting : Event
  tripping resetting : Bool → Event
  file_changing : HotFile → Event

unfoldable pub step : Event → KillSwitch → KillSwitch
step (adding c critical) s = (add_trip_listener c critical s).1
step (beginning attempted) s = (begin_delivery attempted s).1
step (ending i t succeeded) s = end_delivery i t succeeded s
step observing s = (observe s).1
step aborting s = abort_drain s
step checking_execution s = (execution_blocked_now s).1
step (tripping written) s = (trip written s).1
step (resetting removed) s = (reset removed s).1
step (file_changing f) s = record s { hot_file = f }

unfoldable pub run : List Event → KillSwitch → KillSwitch
run [] s = s
run (e ∷ es) s = run es (step e s)

-- The listener with the number `i` is critical and has not been told of the generation.
abbrev pub owes : ℕ → ℕ → List Listener → Bool
owes i g [] = false
owes zero g (x ∷ xs) = x.critical && ltb x.generation g
owes (suc i) g (x ∷ xs) = owes i g xs

-- The event is a successful delivery to the listener.
abbrev pub tells : ℕ → Event → Bool
tells i (adding c critical) = false
tells i (beginning attempted) = false
tells i (ending j t succeeded) = eqb i j && succeeded
tells i observing = false
tells i aborting = false
tells i checking_execution = false
tells i (tripping written) = false
tells i (resetting removed) = false
tells i (file_changing f) = false

register-owes :
    (i g : ℕ) (c : String) (critical : Bool) (d : ℕ) (xs : List Listener)
    → owes i g xs ≡ true
    → owes i g (register c critical d xs) ≡ true
unfolding register
register-owes i g c critical d [] h = absurd (ground arith)
register-owes zero g c critical d (x ∷ xs) h = ground arith
register-owes (suc i) g c critical d (x ∷ xs) h =
    ground (arith, register-owes i g c critical d xs h)

owes_later : (i g k : ℕ) (xs : List Listener) → g ≤ k → owes i g xs ≡ true → owes i k xs ≡ true
owes_later i g k [] l h = absurd (ground arith)
owes_later zero g k (x ∷ xs) l h = ground arith
owes_later (suc i) g k (x ∷ xs) l h = owes_later i g k xs l h

begun-owes :
    (i g j : ℕ) (xs : List Listener)
    → owes i g xs ≡ true
    → owes i g (amend j (λ x. record x { in_progress = true }) xs) ≡ true
begun-owes i g j [] h = absurd (ground arith)
begun-owes zero g zero (x ∷ xs) h = h
begun-owes zero g (suc j) (x ∷ xs) h = h
begun-owes (suc i) g zero (x ∷ xs) h = h
begun-owes (suc i) g (suc j) (x ∷ xs) h = begun-owes i g j xs h

ended-owes :
    (i g j t : ℕ) (succeeded : Bool) (xs : List Listener)
    → (eqb i j && succeeded) ≡ false
    → owes i g xs ≡ true
    → owes i g (amend j (ended t succeeded) xs) ≡ true
ended-owes i g j t b [] n h = absurd (ground arith)
ended-owes zero g zero t b (x ∷ xs) n h = ground arith
ended-owes zero g (suc j) t b (x ∷ xs) n h = h
ended-owes (suc i) g zero t b (x ∷ xs) n h = h
ended-owes (suc i) g (suc j) t b (x ∷ xs) n h = ended-owes i g j t b xs (ground arith) h

owes_pending :
    (i g : ℕ) (xs : List Listener) → owes i g xs ≡ true → has_pending_critical g xs ≡ true
unfolding has_pending_critical
owes_pending i g [] h = absurd (ground arith)
owes_pending zero g (x ∷ xs) h = ground arith
owes_pending (suc i) g (x ∷ xs) h = ground (arith, owes_pending i g xs h)

abbrev IsOwed : ℕ → KillSwitch → Type 0
IsOwed i s = owes i s.trip_generation s.listeners ≡ true

module _ (i : ℕ) (s : KillSwitch) where
  sync-IsOwed : IsOwed i s → IsOwed i (sync s).1
  unfolding sync
  sync-IsOwed h = ground (arith, owes_later i s.trip_generation (s.trip_generation + 1) s.listeners)

  start-IsOwed : IsOwed i s → IsOwed i (start_delivery s).1
  unfolding start_delivery
  start-IsOwed h = ground arith

-- No event but a successful delivery to the listener settles what it is owed.
step-IsOwed :
    (i : ℕ) (e : Event) (s : KillSwitch) → tells i e ≡ false → IsOwed i s → IsOwed i (step e s)
unfolding step abort_drain add_trip_listener begin_delivery end_delivery observe
    execution_blocked_now trip reset
step-IsOwed i (adding c critical) s n h =
    let s' : KillSwitch = (sync s).1 in
    let d = if (sync s).0 then s'.trip_generation - 1 else s'.trip_generation in
    start-IsOwed i (record s' { listeners = register c critical d s'.listeners })
      (register-owes i s'.trip_generation c critical d s'.listeners (sync-IsOwed i s h))
step-IsOwed i (beginning attempted) s n h =
    let s' : KillSwitch = (sync s).1 in
    let o = sync-IsOwed i s h in
    elim (Option-cases (select s'.trip_generation attempted 0 s'.listeners none)) [
      | inl e ↦ rw (e, begin_delivery) o
      | inr (c, e) ↦ rw (e, begin_delivery) (begun-owes i s'.trip_generation c.0 s'.listeners o)
    ]
step-IsOwed i (ending j t b) s n h =
    let s' : KillSwitch = (sync s).1 in
    ended-owes i s'.trip_generation j t b s'.listeners n (sync-IsOwed i s h)
step-IsOwed i observing s n h = start-IsOwed i (sync s).1 (sync-IsOwed i s h)
step-IsOwed i aborting s n h = h
step-IsOwed i checking_execution s n h = sync-IsOwed i s h
step-IsOwed i (tripping written) s n h =
    let f = if written then present else s.hot_file in
    let s' : KillSwitch = record s { flag = true; hot_file = f } in
    start-IsOwed i (sync s').1 (sync-IsOwed i s' h)
step-IsOwed i (resetting removed) s n h =
    let f = if removed then absent else s.hot_file in
    let s' : KillSwitch = record s { flag = false; hot_file = f } in
    start-IsOwed i (sync s').1 (sync-IsOwed i s' h)
step-IsOwed i (file_changing f) s n h = h

run-IsOwed :
    (i : ℕ) (es : List Event) (s : KillSwitch)
    → All (λ e. tells i e ≡ false) es
    → IsOwed i s
    → IsOwed i (run es s)
unfolding run
run-IsOwed i [] s n h = h
run-IsOwed i (e ∷ es) s n h = run-IsOwed i es (step e s) n.1 (step-IsOwed i e s n.0 h)

-- After the trip of a switch that was last seen inactive, execution_blocked_now answers blocked
-- as long as a registered critical listener that was not ahead of the trip generation has not
-- been told successfully, whatever else happens in between, resets and changes of the hot file
-- included.
pub trip_blocks :
    (i : ℕ) (s : KillSwitch) (written : Bool) (es : List Event)
    → s.last_active ≡ false
    → owes i (s.trip_generation + 1) s.listeners ≡ true
    → All (λ e. tells i e ≡ false) es
    → (execution_blocked_now (run es (trip written s).1)).0 ≡ true
unfolding trip start_delivery sync execution_blocked_now
trip_blocks i s written es l o n =
    let h : IsOwed i (trip written s).1 = ground (arith, l, o) in
    let k = sync-IsOwed i (run es (trip written s).1) (run-IsOwed i es (trip written s).1 n h) in
    ground (
      arith,
      owes_pending i (sync (run es (trip written s).1)).1.trip_generation
          (sync (run es (trip written s).1)).1.listeners k,
    )

pending_owes :
    (g : ℕ) (xs : List Listener) → has_pending_critical g xs ≡ true → (i : ℕ) × (owes i g xs ≡ true)
unfolding has_pending_critical
pending_owes g [] h = absurd (ground arith)
pending_owes g (x ∷ xs) h = elim (Bool-cases (x.critical && ltb x.generation g)) [
  | inl e ↦ (0, e)
  | inr e ↦ let (i, o) = pending_owes g xs (ground arith) in (suc i, o)
]

-- execution_blocked_now answers blocked exactly when a kill mechanism is active or some critical
-- listener is behind the trip generation of before the call.
pub execution_blocked_now_iff :
    (s : KillSwitch)
    → ((execution_blocked_now s).0 ≡ true) ↔ (
        (active_from s.flag s.hot_file ≡ true)
        ⊎ ((i : ℕ) × (owes i s.trip_generation s.listeners ≡ true)))
unfolding execution_blocked_now sync
execution_blocked_now_iff s = elim (Bool-cases (active_from s.flag s.hot_file)) [
  | inl a ↦ (λ h. inl a, λ h. ground (arith, a))
  | inr a ↦ (
    λ h. inr (pending_owes s.trip_generation s.listeners (ground (arith, a))),
    λ h. elim h [
      | inl b ↦ absurd (ground (arith, a, b))
      | inr (i, o) ↦ ground (arith, a, owes_pending i s.trip_generation s.listeners o)
    ],
  )
]
