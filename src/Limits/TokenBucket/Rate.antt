-- ===== src/Limits/TokenBucket/Rate.antt =====
-- How many acquisitions a bucket grants in a window, over any sequence of calls at times that do
-- not go back.
use wire_agent.Base.{
  ℕ, ◌+◌, leb, refl, ◌≤◌, ◌<◌, String, Bool, true, false, ◌&&◌, ◌||◌, ◌≡◌, sym, ◌∙◌, inl, inr, some,
  List, [], ◌∷◌, ◌++◌, ◌==◌, eq_iff, eq_refl, arith, if◌then◌else◌, length, Bool-cases,
  Option-cases, length-append, text_cases, subst,
}
use wire_agent.Base.Dict.{get, get-put}
use wire_agent.Limits.TokenBucket.Window.{
  in_window_twice, in_window_later, in_window-append, in_window_one, append_nil, append_one,
}
use wire_agent.Limits.TokenBucket.{
  BucketLimits, TokenBucket, in_window, timestamps, check_bucket, stamp, Acquired, acquired,
  global_circuit_breaker, action_limit, acquire,
}

-- The acquisition counts for the bucket of the key.
abbrev pub counts : String → String → Bool
counts key action = ("_global" == key) || (action == key)

abbrev pub is_acquired : Acquired → Bool
is_acquired acquired = true
is_acquired global_circuit_breaker = false
is_acquired action_limit = false

-- The times at which an acquisition for the bucket of the key was granted.
unfoldable pub history : String → List (ℕ × String) → TokenBucket → List ℕ
history key [] b = []
history key ((now, action) ∷ calls) b =
    let (r, b') = acquire action now b in
    let rest = history key calls b' in
    if is_acquired r && counts key action then now ∷ rest else rest

-- The calls come in the order of their times, from a time on, and name an action.
abbrev pub IsOrdered : ℕ → List (ℕ × String) → Type 0
IsOrdered last [] = Unit
IsOrdered last ((now, action) ∷ calls) =
    (last ≤ now) × (("_global" == action) ≡ false) × IsOrdered now calls

abbrev pub last_time : ℕ → List (ℕ × String) → ℕ
last_time last [] = last
last_time last ((now, action) ∷ calls) = last_time now calls

module _ (key : String) (l : BucketLimits) where
  -- The bucket knows the times granted so far as far as a later window reaches, and they are within
  -- the limit.
  record Tracks (last : ℕ) (past : List ℕ) (b : TokenBucket) : Type 0 where
    limits : get b.limits key ≡ some l
    known :
        (n : ℕ)
        → last ≤ n
        → in_window n l.window_seconds (timestamps b.states key) ≡ in_window n l.window_seconds past
    bounded : length (in_window last l.window_seconds past) ≤ l.max_count

  later-Tracks :
      (last now : ℕ) (past : List ℕ) (b : TokenBucket)
      → last ≤ now
      → Tracks last past b
      → Tracks now past b
  later-Tracks last now past b h t = record {
    limits = t.limits;
    known = λ n m. t.known n (omega (arith, h, m));
    bounded = omega (arith, t.bounded, in_window_later l.window_seconds last now past h);
  }

  check_limits :
      (k : String) (now : ℕ) (b : TokenBucket) → (check_bucket k now b).1.limits ≡ b.limits
  unfolding check_bucket
  check_limits k now b = elim (Option-cases (get b.limits k)) [
    | inl e ↦ ground (arith, e)
    | inr (m, e) ↦ ground (arith, e)
  ]

  check_known :
      (k : String) (now n : ℕ) (b : TokenBucket)
      → now ≤ n
      → get b.limits key ≡ some l
      → in_window n l.window_seconds (timestamps (check_bucket k now b).1.states key)
        ≡ in_window n l.window_seconds (timestamps b.states key)
  unfolding check_bucket
  check_known k now n b h q = elim (Option-cases (get b.limits k)) [
    | inl e ↦ ground (arith, e)
    | inr (m, e) ↦
        let ts = in_window now m.window_seconds (timestamps b.states k) in
        elim (text_cases k key) [
          | inl s ↦
              let x : m ≡ l = ground (arith, e, q, s) in
              ground (
                arith,
                e,
                s,
                x,
                get-put b.states k key ts,
                in_window_twice l.window_seconds now n (timestamps b.states key) h,
              )
          | inr s ↦ ground (arith, e, s, get-put b.states k key ts)
        ]
  ]

  check-Tracks :
      (k : String) (now : ℕ) (past : List ℕ) (b : TokenBucket)
      → Tracks now past b
      → Tracks now past (check_bucket k now b).1
  check-Tracks k now past b t = record {
    limits = rw (check_limits k now b) t.limits;
    known = λ n m. check_known k now n b m t.limits ∙ t.known n m;
    bounded = t.bounded;
  }

  check_admits :
      (now : ℕ) (past : List ℕ) (b : TokenBucket)
      → Tracks now past b
      → (check_bucket key now b).0 ≡ true
      → length (in_window now l.window_seconds past) < l.max_count
  unfolding check_bucket
  check_admits now past b t h =
      let e = t.limits in let k = t.known now (omega arith) in ground (arith, e, k)

  stamp-Tracks :
      (now : ℕ) (past : List ℕ) (b : TokenBucket)
      → Tracks now past b
      → length (in_window now l.window_seconds past) < l.max_count
      → Tracks now (past ++ (now ∷ [])) (stamp key now b)
  unfolding stamp
  stamp-Tracks now past b t h = record {
    limits = t.limits;
    known = λ n m. ground (
      arith,
      get-put b.states key key (timestamps b.states key ++ (now ∷ [])),
      eq_refl key,
      t.known n m,
      in_window-append l.window_seconds n (timestamps b.states key) (now ∷ []),
      in_window-append l.window_seconds n past (now ∷ []),
    );
    bounded = ground (
      arith,
      in_window-append l.window_seconds now past (now ∷ []),
      length-append (in_window now l.window_seconds past)
          (in_window now l.window_seconds (now ∷ [])),
      in_window_one l.window_seconds now now,
    );
  }

  stamp_other :
      (k : String) (now : ℕ) (past : List ℕ) (b : TokenBucket)
      → Tracks now past b
      → (k == key) ≡ false
      → Tracks now past (stamp k now b)
  unfolding stamp
  stamp_other k now past b t h = record {
    limits = t.limits;
    known = λ n m.
        ground
          (arith, get-put b.states k key (timestamps b.states k ++ (now ∷ [])), h, t.known n m);
    bounded = t.bounded;
  }

  -- The times granted after one more call.
  abbrev extended : List ℕ → Acquired → String → ℕ → List ℕ
  extended past r action now =
      if is_acquired r && counts key action then past ++ (now ∷ []) else past

  stamps-Tracks :
      (action : String) (now : ℕ) (past : List ℕ) (b : TokenBucket)
      → Tracks now past b
      → ("_global" == action) ≡ false
      → (counts key action ≡ true → length (in_window now l.window_seconds past) < l.max_count)
      → Tracks now (extended past acquired action now) (stamp action now (stamp "_global" now b))
  stamps-Tracks action now past b t n h = elim (text_cases "_global" key) [
    | inl g ↦
        let x = stamp-Tracks now past b t (h (ground (arith, g))) in
        let y : Tracks now (past ++ (now ∷ [])) (stamp "_global" now b) =
          subst (λ k. Tracks now (past ++ (now ∷ [])) (stamp k now b)) (sym g.1) x in
        let a : (action == key) ≡ false =
          ground (arith, n, g, eq_iff action key, eq_iff "_global" action) in
        rw g.0 (stamp_other action now (past ++ (now ∷ [])) (stamp "_global" now b) y a)
    | inr g ↦
        let x = stamp_other "_global" now past b t g.0 in
        elim (text_cases action key) [
          | inl a ↦
              let y = stamp-Tracks now past (stamp "_global" now b) x (h (ground (arith, a))) in
              let z =
                subst (λ k. Tracks now (past ++ (now ∷ [])) (stamp k now (stamp "_global" now b)))
                  (sym a.1) y in
              rw (g.0, a.0) z
          | inr a ↦ rw (g.0, a.0) (stamp_other action now past (stamp "_global" now b) x a.0)
        ]
  ]

  acquire-Tracks :
      (action : String) (now : ℕ) (past : List ℕ) (b : TokenBucket)
      → Tracks now past b
      → ("_global" == action) ≡ false
      → Tracks now (extended past (acquire action now b).0 action now) (acquire action now b).1
  unfolding acquire
  acquire-Tracks action now past b t n =
      let b1 = (check_bucket "_global" now b).1 in
      let t1 = check-Tracks "_global" now past b t in
      let t2 = check-Tracks action now past b1 t1 in
      elim (Bool-cases (check_bucket "_global" now b).0) [
        | inr g ↦ rw (g, acquire) t1
        | inl g ↦ elim (Bool-cases (check_bucket action now b1).0) [
          | inr a ↦ rw (g, a, acquire) t2
          | inl a ↦
              rw (g, a, acquire)
                (stamps-Tracks action now past (check_bucket action now b1).1 t2 n (λ c.
                  elim (text_cases "_global" key) [
                    | inl q ↦ ground (arith, q, g, check_admits now past b t)
                    | inr q ↦
                        ground (arith, q, c, a, eq_iff action key, check_admits now past b1 t1)
                  ]))
        ]
      ]

history_bounded :
    (key : String) (l : BucketLimits) (calls : List (ℕ × String)) (last now : ℕ) (past : List ℕ)
    (b : TokenBucket)
    → Tracks key l last past b
    → IsOrdered last calls
    → last_time last calls ≤ now
    → length (in_window now l.window_seconds (past ++ history key calls b)) ≤ l.max_count
unfolding history
history_bounded key l [] last now past b t o h =
    ground (arith, in_window_later l.window_seconds last now past h, t.bounded, append_nil past)
history_bounded key l ((m, action) ∷ calls) last now past b t o h =
    let t' = acquire-Tracks key l action m past b (later-Tracks key l last m past b o.0 t) o.1 in
    let b' = (acquire action m b).1 in
    elim (Bool-cases (is_acquired (acquire action m b).0 && counts key action)) [
      | inl c ↦
          rw (c, append_one past m (history key calls b'))
            (history_bounded key l calls m now (past ++ (m ∷ [])) b' (rw c at t') o.2 h)
      | inr c ↦ rw c (history_bounded key l calls m now past b' (rw c at t') o.2 h)
    ]

-- How many of the times lie in the window that ends now.
abbrev pub recent : ℕ → ℕ → List ℕ → ℕ
recent now window [] = 0
recent now window (t ∷ ts) =
    let rest = recent now window ts in if leb now (t + window) then 1 + rest else rest

recent_eq : (now w : ℕ) (ts : List ℕ) → recent now w ts ≡ length (in_window now w ts)
unfolding in_window
recent_eq now w [] = refl
recent_eq now w (t ∷ ts) = ground (arith, recent_eq now w ts)

-- For a bucket without timestamps, and calls of acquire at times that do not go back for actions
-- other than "_global", the calls granted for a key with a limit at times whose window has not
-- yet ended are at most its maximum, at every time that is not before the last call; for the key
-- "_global" the calls for all actions count.
pub rate_bounded :
    (key : String) (l : BucketLimits) (calls : List (ℕ × String)) (start now : ℕ) (b : TokenBucket)
    → get b.limits key ≡ some l
    → b.states ≡ []
    → IsOrdered start calls
    → last_time start calls ≤ now
    → recent now l.window_seconds (history key calls b) ≤ l.max_count
unfolding get in_window
rate_bounded key l calls start now b e s o h =
    rw (recent_eq now l.window_seconds (history key calls b)) (
      history_bounded key l calls start now [] b
        (record { limits = e; known = λ n m. ground (arith, s); bounded = ground arith }) o h)
