-- ===== src/Limits/TokenBucket.antt =====
-- `TokenBucket` of src/webwire/safety/token_bucket.py. Times are natural numbers of some unit; a
-- timestamp is at or after `now - window` where `now` is at most the timestamp plus the window.
mod Window
pub mod Rate
use wire_agent.Base.{
  ℕ, ◌+◌, ◌-◌, String, Bool, true, false, ◌≡◌, Option, none, some, List, [], ◌∷◌, ◌++◌, ◌==◌, leb,
  ltb, if◌then◌else◌, length,
}
use wire_agent.Base.Dict.{Dict, get, put}

pub record BucketLimits : Type 0 where
  pub max_count : ℕ
  pub window_seconds : ℕ

-- `_WindowState` is its list of timestamps.
pub record TokenBucket : Type 0 where
  pub limits : Dict BucketLimits
  pub states : Dict (List ℕ)

-- `_DEFAULTS`
abbrev pub default_limits : Dict BucketLimits
default_limits =
    ("bookmark", record { max_count = 10; window_seconds = 300 })
    ∷ (("like", record { max_count = 10; window_seconds = 300 })
        ∷ (("follow", record { max_count = 5; window_seconds = 300 })
            ∷ (("repost", record { max_count = 3; window_seconds = 300 })
                ∷ (("post", record { max_count = 3; window_seconds = 3600 })
                    ∷ (("reply", record { max_count = 5; window_seconds = 3600 })
                        ∷ (("quote", record { max_count = 3; window_seconds = 3600 })
                            ∷ (("delete_post", record { max_count = 10; window_seconds = 3600 })
                                ∷ (("_global", record { max_count = 20; window_seconds = 300 })
                                    ∷ []))))))))

-- `limits or dict(_DEFAULTS)`, where no limits and no entries at all count as none given.
unfoldable pub new_bucket : Dict BucketLimits → TokenBucket
new_bucket [] = record { limits = default_limits; states = [] }
new_bucket (l ∷ ls) = record { limits = l ∷ ls; states = [] }

-- The timestamps that are in the window.
unfoldable pub in_window : ℕ → ℕ → List ℕ → List ℕ
in_window now window [] = []
in_window now window (t ∷ ts) =
    let rest = in_window now window ts in if leb now (t + window) then t ∷ rest else rest

abbrev pub timestamps : Dict (List ℕ) → String → List ℕ
timestamps states key = elim (get states key) [ none ↦ [] | some ts ↦ ts ]

-- `_check_bucket`
unfoldable pub check_bucket : String → ℕ → TokenBucket → Bool × TokenBucket
unfolding in_window
check_bucket key now b = elim (get b.limits key) [
  | none ↦ (true, b)
  | some l ↦
      let ts = in_window now l.window_seconds (timestamps b.states key) in
      (ltb (length ts) l.max_count, record b { states = put b.states key ts })
]

-- `states.setdefault(key, _WindowState()).timestamps.append(now)`
unfoldable pub stamp : String → ℕ → TokenBucket → TokenBucket
stamp key now b = record b { states = put b.states key (timestamps b.states key ++ (now ∷ [])) }

-- What `acquire` returns.
pub data Acquired : Type 0 where
  acquired global_circuit_breaker action_limit : Acquired

unfoldable pub acquire : String → ℕ → TokenBucket → Acquired × TokenBucket
unfolding check_bucket stamp
acquire action now b =
    let (global_ok, b1) = check_bucket "_global" now b in
    let (action_ok, b2) = check_bucket action now b1 in
    if global_ok
    then (if action_ok
        then (acquired, stamp action now (stamp "_global" now b2))
        else (action_limit, b2))
    else (global_circuit_breaker, b1)

unfoldable pub remaining : String → ℕ → TokenBucket → Option ℕ
unfolding in_window
remaining action now b = elim (get b.limits action) [
  | none ↦ none
  | some l ↦ elim (get b.states action) [
    | none ↦ some l.max_count
    | some ts ↦ some (l.max_count - length (in_window now l.window_seconds ts))
  ]
]
