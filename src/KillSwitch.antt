-- ===== src/KillSwitch.antt =====
-- `KillSwitch` of src/webwire/safety/kill_switch.py, as the steps that run whole under its lock. A
-- listener's callback runs outside the lock, between `begin_delivery` and `end_delivery`; what it
-- does is any steps in between. The hot file is a part of the state that others may change too.
pub mod Revocation
pub mod Selection
mod Examples
use wire_agent.Base.{
  ℕ, zero, suc, ◌+◌, ◌-◌, String, Bool, true, false, not, ◌&&◌, ◌||◌, ◌≡◌, Option, none, some, List,
  [], ◌∷◌, ◌==◌, eqb, ltb, leb, if◌then◌else◌,
}

-- What `kill_path().exists()` answers; `unreadable` is an `OSError`.
pub data HotFile : Type 0 where
  absent present unreadable : HotFile

-- The index-aligned lists of the listeners, as one list; a callback is known by its name.
pub record Listener : Type 0 where
  pub callback : String
  pub generation : ℕ
  pub critical : Bool
  pub in_progress : Bool

pub record KillSwitch : Type 0 where
  pub flag : Bool
  pub hot_file : HotFile
  pub listeners : List Listener
  pub last_active : Bool
  pub trip_generation : ℕ
  pub notifying : Bool

-- `__init__`; whether the environment variable trips the switch at boot is given.
unfoldable pub new_kill_switch : Bool → HotFile → KillSwitch
new_kill_switch env f = record {
  flag = env;
  hot_file = f;
  listeners = [];
  last_active = false;
  trip_generation = 0;
  notifying = false;
}

-- `_active_unlocked`
abbrev pub active_from : Bool → HotFile → Bool
active_from true f = true
active_from false absent = false
active_from false present = true
active_from false unreadable = true

-- `_sync_trip_generation_unlocked`
unfoldable pub sync : KillSwitch → Bool × KillSwitch
sync s =
    let active = active_from s.flag s.hot_file in
    (
      active,
      record s {
        trip_generation =
            if active && not s.last_active then s.trip_generation + 1 else s.trip_generation;
        last_active = active;
      },
    )

-- `_has_pending_listener_events_unlocked`
unfoldable pub has_pending : ℕ → List Listener → Bool
has_pending g [] = false
has_pending g (x ∷ xs) = ltb x.generation g || has_pending g xs

-- `_has_pending_critical_events_unlocked`
unfoldable pub has_pending_critical : ℕ → List Listener → Bool
has_pending_critical g [] = false
has_pending_critical g (x ∷ xs) = (x.critical && ltb x.generation g) || has_pending_critical g xs

-- `_start_delivery_unlocked`
unfoldable pub start_delivery : KillSwitch → Bool × KillSwitch
unfolding has_pending
start_delivery s =
    if s.notifying || not (has_pending s.trip_generation s.listeners)
    then (false, s)
    else (true, record s { notifying = true })

-- The listeners once a callback is registered.
unfoldable pub register : String → Bool → ℕ → List Listener → List Listener
register c critical delivered [] =
    record { callback = c; generation = delivered; critical = critical; in_progress = false } ∷ []
register c critical delivered (x ∷ xs) =
    let rest = register c critical delivered xs in
    if x.callback == c then record x { critical = critical || x.critical } ∷ xs else x ∷ rest

-- `add_trip_listener`, as far as whether to drain. `trip_generation - 1` is taken only where the
-- switch is active, so at least one generation has been made.
unfoldable pub add_trip_listener : String → Bool → KillSwitch → Bool × KillSwitch
unfolding sync register start_delivery
add_trip_listener c critical s =
    let (active, s') = sync s in
    let delivered = if active then s'.trip_generation - 1 else s'.trip_generation in
    start_delivery (record s' { listeners = register c critical delivered s'.listeners })

-- `(index, target) in attempted`
abbrev pub was_attempted : List (ℕ × ℕ) → ℕ → ℕ → Bool
was_attempted [] i t = false
was_attempted ((j, u) ∷ xs) i t = (eqb j i && eqb u t) || was_attempted xs i t

-- The better of the candidate so far and the listener `x` with the number `i`.
abbrev pub better : ℕ → List (ℕ × ℕ) → ℕ → Listener → Option (ℕ × ℕ) → Option (ℕ × ℕ)
better g attempted i x candidate =
    if leb g x.generation || x.in_progress
    then candidate
    else if was_attempted attempted i (x.generation + 1)
    then candidate
    else elim candidate [
      | none ↦ some (i, x.generation + 1)
      | some c ↦ if ltb (x.generation + 1) c.1 then some (i, x.generation + 1) else some c
    ]

-- `_select_pending_event_unlocked`, from the listener with the number `i` on.
unfoldable pub select : ℕ → List (ℕ × ℕ) → ℕ → List Listener → Option (ℕ × ℕ) → Option (ℕ × ℕ)
select g attempted i [] candidate = candidate
select g attempted i (x ∷ xs) candidate =
    select g attempted (suc i) xs (better g attempted i x candidate)

abbrev pub amend : ℕ → (Listener → Listener) → List Listener → List Listener
amend i f [] = []
amend zero f (x ∷ xs) = f x ∷ xs
amend (suc i) f (x ∷ xs) = x ∷ amend i f xs

-- The first critical section of a turn of `_drain_pending_listener_events`.
unfoldable pub begin_delivery : List (ℕ × ℕ) → KillSwitch → Option (ℕ × ℕ) × KillSwitch
unfolding sync select
begin_delivery attempted s =
    let s' : KillSwitch = (sync s).1 in
    elim (select s'.trip_generation attempted 0 s'.listeners none) [
      | none ↦ (none, record s' { notifying = false })
      | some (i, t) ↦ (
        some (i, t),
        record s' { listeners = amend i (λ x. record x { in_progress = true }) s'.listeners },
      )
    ]

-- Its second one, once the callback has returned or failed.
abbrev pub ended : ℕ → Bool → Listener → Listener
ended target succeeded x = record x {
  in_progress = false;
  generation = if succeeded && ltb x.generation target then target else x.generation;
}

unfoldable pub end_delivery : ℕ → ℕ → Bool → KillSwitch → KillSwitch
unfolding sync
end_delivery i target succeeded s =
    let s' : KillSwitch = (sync s).1 in
    record s' { listeners = amend i (ended target succeeded) s'.listeners }

-- The end of a drain that leaves by an exception that is no `Exception`.
unfoldable pub abort_drain : KillSwitch → KillSwitch
abort_drain s = record s { notifying = false }

-- `_observe_and_drain`, as far as whether to drain.
unfoldable pub observe : KillSwitch → Bool × KillSwitch
unfolding sync start_delivery
observe s = start_delivery (sync s).1

-- `execution_blocked_now`, and the test of `execution_fence`.
unfoldable pub execution_blocked_now : KillSwitch → Bool × KillSwitch
unfolding sync has_pending_critical
execution_blocked_now s =
    let (active, s') = sync s in
    (active || has_pending_critical s'.trip_generation s'.listeners, s')

-- `trip`, as far as whether to drain; whether the hot file could be written is given.
unfoldable pub trip : Bool → KillSwitch → Bool × KillSwitch
unfolding sync start_delivery
trip written s =
    start_delivery
      (sync (record s { flag = true; hot_file = if written then present else s.hot_file })).1

-- `reset`, as far as whether to drain; whether the hot file could be removed is given.
unfoldable pub reset : Bool → KillSwitch → Bool × KillSwitch
unfolding sync start_delivery
reset removed s =
    start_delivery
      (sync (record s { flag = false; hot_file = if removed then absent else s.hot_file })).1
