-- ===== src/Limits/Examples.antt =====
-- The theorems on the limits at concrete calls.
use wire_agent.Base.{ℕ, ◌≤◌, String, false, ◌≡◌, refl, List, [], ◌∷◌, arith}
use wire_agent.Base.Dict.{get}
use wire_agent.Limits.TokenBucket.{BucketLimits, new_bucket}
use wire_agent.Limits.TokenBucket.Rate.{history, recent, IsOrdered, rate_bounded}
use wire_agent.Limits.DedupeStore.{DedupeStore, check, record_write}
use wire_agent.Limits.DedupeStore.Refusal.{checking, recording, run, duplicate_refused}

abbrev post_limits : BucketLimits
post_limits = record { max_count = 3; window_seconds = 3600 }

abbrev posts : List (ℕ × String)
posts = (10, "post") ∷ ((20, "like") ∷ ((30, "post") ∷ ((40, "post") ∷ ((50, "post") ∷ []))))

rate_bounded_example : recent 60 3600 (history "post" posts (new_bucket [])) ≤ 3
unfolding get new_bucket
rate_bounded_example =
    let five : IsOrdered 40 ((50, "post") ∷ []) = (omega arith, refl, tt) in
    let four : IsOrdered 20 ((30, "post") ∷ ((40, "post") ∷ ((50, "post") ∷ []))) =
      (omega arith, refl, (omega arith, refl, five)) in
    rate_bounded "post" post_limits posts 0 60 (new_bucket []) refl refl
      (omega arith, refl, (omega arith, refl, four)) (omega arith)

abbrev store : DedupeStore
store = record { ttl = 3600; entries = [] }

duplicate_refused_example :
    (check "a1:post:hello" 900 (
      run
        (checking "other" 50 ∷ (recording "other" 60 ∷ []))
        (record_write "a1:post:hello" 40 store))).0
    ≡ false
duplicate_refused_example =
    duplicate_refused "a1:post:hello" 40 900 store
      (checking "other" 50 ∷ (recording "other" 60 ∷ []))
      ((omega arith, omega arith), ((omega arith, omega arith), tt)) (omega arith)
