-- ===== src/Ipc/Examples.antt =====
-- The theorems on the request table and on frames at concrete calls.
use wire_agent.Base.{ℕ, ◌≤◌, ◌<◌, ◌≡◌, refl, inr, none, some, List, [], ◌∷◌, length, arith}
use wire_agent.Base.Dict.{get}
use wire_agent.Base.Results.{ok, err}
use wire_agent.Ipc.RequestTable.{
  future_at, waiting, result, failed, Inflight, RetainedRequestTable, new_table, new, retained,
  violation, admit, classify, complete, abandon,
}
use wire_agent.Ipc.RequestTable.Retention.{IsSound, classifying, completing, run, new_table-IsSound}
use wire_agent.Ipc.RequestTable.Once.{admitted_once, complete_retains, abandon_forgets}
use wire_agent.Ipc.Framing.{ipc_max_frame_bytes, oversized, encode_frame, parse_frame_header, drop}
use wire_agent.Ipc.Framing.RoundTrip.{parse-encode}

abbrev empty_table : RetainedRequestTable
empty_table = record {
  max_inflight = 2;
  max_completed = 2;
  inflight = [];
  completed = [];
  futures = [];
}

abbrev waiting_for : Inflight
waiting_for = record { canonical = "c1"; future = 0; task = none }

-- A table with one request in flight.
abbrev busy : RetainedRequestTable
busy = record empty_table { inflight = ("k1", waiting_for) ∷ []; futures = waiting ∷ [] }

new_table-IsSound_example :
    IsSound (run (classifying "k1" "c1" ∷ (completing "k1" "r1" ∷ [])) empty_table)
unfolding new_table
new_table-IsSound_example =
    new_table-IsSound 2 2 empty_table (classifying "k1" "c1" ∷ (completing "k1" "r1" ∷ [])) refl

empty-IsSound : IsSound empty_table
unfolding new_table run
empty-IsSound = new_table-IsSound 2 2 empty_table [] refl

busy-IsSound : IsSound busy
unfolding new_table run get
busy-IsSound = record {
  inflight = (refl, tt);
  completed = tt;
  inflight_bound = omega arith;
  completed_bound = omega arith;
  room = omega arith;
  apart = λ k. inr refl;
}

admitted_once_example :
    (classify "k1" "c2" (
      run
        (classifying "k2" "c2" ∷ (completing "k2" "r2" ∷ []))
        (classify "k1" "c1" empty_table).1)).0
    ≡ violation
unfolding classify admit get
admitted_once_example =
    admitted_once empty_table "k1" "c1" "c2" 0 (classifying "k2" "c2" ∷ (completing "k2" "r2" ∷ []))
      empty-IsSound refl (refl, (refl, tt))

complete_retains_example :
    ((classify "k1" "c1" (complete "k1" "r1" busy)).0 ≡ retained "r1")
    × (future_at (complete "k1" "r1" busy).futures 0 ≡ some (result "r1"))
unfolding get
complete_retains_example = complete_retains busy "k1" "c1" "r1" waiting_for busy-IsSound refl refl

abandon_forgets_example :
    ((classify "k1" "c1" (abandon "k1" "x1" busy)).0
      ≡ new (length (abandon "k1" "x1" busy).futures))
    × (future_at (abandon "k1" "x1" busy).futures 0 ≡ some (failed "x1"))
unfolding get
abandon_forgets_example = abandon_forgets busy "k1" "c1" "x1" waiting_for busy-IsSound refl refl

parse-encode_example :
    (3 ≤ ipc_max_frame_bytes
      → (frame : List ℕ) × (encode_frame (123 ∷ (32 ∷ (125 ∷ []))) ≡ ok frame)
        × (parse_frame_header frame ≡ ok (3, 8))
        × (drop 8 frame ≡ 123 ∷ (32 ∷ (125 ∷ []))))
    × (ipc_max_frame_bytes < 3 → encode_frame (123 ∷ (32 ∷ (125 ∷ []))) ≡ err (oversized 3))
parse-encode_example = parse-encode (123 ∷ (32 ∷ (125 ∷ [])))
