-- ===== src/Ipc/RequestTable.antt =====
-- `RetainedRequestTable` of src/webwire/authority_ipc_request_table.py, which is used from one
-- thread. A future is its number in the list of the futures made so far, which is what the awaiting
-- callers see; a response frame, an error and a task are texts.
mod Keys
pub mod Retention
pub mod Once
use wire_agent.Base.{
  ℕ, zero, suc, ◌+◌, String, Bool, true, false, not, ◌&&◌, ◌||◌, ◌≡◌, Option, none, some, List, [],
  ◌∷◌, ◌++◌, ◌==◌, eqb, ltb, leb, if◌then◌else◌, length,
}
use wire_agent.Base.Dict.{Dict, get, put, pop}

-- What a future has become.
pub data Future : Type 0 where
  waiting : Future
  result : String → Future
  failed : String → Future

abbrev pub is_done : Future → Bool
is_done waiting = false
is_done (result r) = true
is_done (failed e) = true

-- The futures that exist, by their number; a number that is not there is not given out.
abbrev pub future_at : List Future → ℕ → Option Future
future_at [] n = none
future_at (x ∷ xs) zero = some x
future_at (x ∷ xs) (suc n) = future_at xs n

-- Gives the future a value unless it has one.
unfoldable pub settle : List Future → ℕ → Future → List Future
settle [] n v = []
settle (x ∷ xs) zero v = (if is_done x then x else v) ∷ xs
settle (x ∷ xs) (suc n) v = x ∷ settle xs n v

-- `_Inflight`; a task is known by its name.
pub record Inflight : Type 0 where
  pub canonical : String
  pub future : ℕ
  pub task : Option String

-- The completed entries stand from the one used least recently to the latest.
pub record RetainedRequestTable : Type 0 where
  pub max_inflight : ℕ
  pub max_completed : ℕ
  pub inflight : Dict Inflight
  pub completed : Dict (String × String)
  pub futures : List Future

-- `__init__`: a capacity below one is a `ValueError`.
unfoldable pub new_table : ℕ → ℕ → Option RetainedRequestTable
new_table i c =
    if ltb i 1 || ltb c 1
    then none
    else some (record {
      max_inflight = i;
      max_completed = c;
      inflight = [];
      completed = [];
      futures = [];
    })

-- `TableDecision`
pub data TableDecision : Type 0 where
  new join : ℕ → TableDecision
  retained : String → TableDecision
  violation full : TableDecision

-- `completed.move_to_end(k)` for the entry `v` of `k`
unfoldable pub move_to_end :
    Dict (String × String) → String → String × String → Dict (String × String)
unfolding pop
move_to_end d k v = pop d k ++ ((k, v) ∷ [])

-- `classify` for an id that is neither in flight nor completed
unfoldable pub admit : String → String → RetainedRequestTable → TableDecision × RetainedRequestTable
admit k c t = if leb t.max_inflight (length t.inflight) then (full, t) else (
  new (length t.futures),
  record t {
    inflight = put t.inflight k (record { canonical = c; future = length t.futures; task = none });
    futures = t.futures ++ (waiting ∷ []);
  },
)

unfoldable pub classify :
    String → String → RetainedRequestTable → TableDecision × RetainedRequestTable
unfolding admit move_to_end
classify k c t = elim (get t.inflight k) [
  | some e ↦ if e.canonical == c then (join e.future, t) else (violation, t)
  | none ↦ elim (get t.completed k) [
    | some (d, response) ↦
        if d == c
        then (retained response, record t { completed = move_to_end t.completed k (d, response) })
        else (violation, t)
    | none ↦ admit k c t
  ]
]

unfoldable pub pin_task : String → String → RetainedRequestTable → RetainedRequestTable
pin_task k task t = elim (get t.inflight k) [
  | none ↦ t
  | some e ↦ record t { inflight = put t.inflight k (record e { task = some task }) }
]

-- `popitem(last=False)`
abbrev pub drop_oldest : Dict (String × String) → Dict (String × String)
drop_oldest [] = []
drop_oldest (e ∷ d) = d

-- Room for one more completed entry.
unfoldable pub evict : RetainedRequestTable → Dict (String × String)
evict t = if leb t.max_completed (length t.completed) then drop_oldest t.completed else t.completed

unfoldable pub complete : String → String → RetainedRequestTable → RetainedRequestTable
unfolding evict settle
complete k response t = elim (get t.inflight k) [
  | none ↦ t
  | some e ↦ record t {
    inflight = pop t.inflight k;
    completed = put (evict t) k (e.canonical, response);
    futures = settle t.futures e.future (result response);
  }
]

unfoldable pub abandon : String → String → RetainedRequestTable → RetainedRequestTable
unfolding settle
abandon k error t = elim (get t.inflight k) [
  | none ↦ t
  | some e ↦ record t {
    inflight = pop t.inflight k;
    futures = settle t.futures e.future (failed error);
  }
]
