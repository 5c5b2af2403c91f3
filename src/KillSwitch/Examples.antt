-- ===== src/KillSwitch/Examples.antt =====
-- The theorems on the kill switch at concrete states.
use wire_agent.Base.{ℕ, String, true, false, ◌≡◌, refl, List, [], ◌∷◌}
use wire_agent.KillSwitch.{absent, Listener, KillSwitch, execution_blocked_now, trip}
use wire_agent.KillSwitch.Revocation.{
  Event, beginning, ending, observing, resetting, run, trip_blocks,
}

abbrev listener : String → ℕ → Listener
listener c g = record { callback = c; generation = g; critical = true; in_progress = false }

abbrev quiet : KillSwitch
quiet = record {
  flag = false;
  hot_file = absent;
  listeners = listener "log" 2 ∷ (listener "advance_epoch" 2 ∷ []);
  last_active = false;
  trip_generation = 2;
  notifying = false;
}

-- Only the first listener is told before the reset.
abbrev events : List Event
events = beginning [] ∷ (ending 0 3 true ∷ (resetting true ∷ (observing ∷ [])))

trip_blocks_example : (execution_blocked_now (run events (trip true quiet).1)).0 ≡ true
trip_blocks_example = trip_blocks 1 quiet true events refl refl (refl, (refl, (refl, (refl, tt))))
