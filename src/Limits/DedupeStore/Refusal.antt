-- ===== src/Limits/DedupeStore/Refusal.antt =====
-- For how long a recorded write refuses its repetition.
use wire_agent.Base.{
  ℕ, ◌+◌, ◌≤◌, ◌<◌, String, Bool, true, false, ◌≡◌, refl, none, some, List, [], ◌∷◌, leb, arith,
  All,
}
use wire_agent.Base.Dict.{Dict, get, get-put, get-put_self}
use wire_agent.Limits.DedupeStore.{DedupeStore, unexpired, check, record_write}

-- The call on the store, at a time.
pub data Call : Type 0 where
  checking recording : String → ℕ → Call

abbrev pub time : Call → ℕ
time (checking k t) = t
time (recording k t) = t

unfoldable pub step : Call → DedupeStore → DedupeStore
step (checking k t) s = (check k t s).1
step (recording k t) s = record_write k t s

unfoldable pub run : List Call → DedupeStore → DedupeStore
run [] s = s
run (c ∷ cs) s = run cs (step c s)

-- The key refuses repetitions until the time.
abbrev pub lasts : String → ℕ → Dict ℕ → Bool
lasts k e d = elim (get d k) [ none ↦ false | some expiry ↦ leb e expiry ]

unexpired-lasts :
    (k : String) (e now : ℕ) (d : Dict ℕ)
    → now < e
    → lasts k e d ≡ true
    → lasts k e (unexpired now d) ≡ true
unfolding unexpired get
unexpired-lasts k e now [] n h = h
unexpired-lasts k e now ((j, x) ∷ d) n h = ground (arith, unexpired-lasts k e now d n)

module _ (k : String) (e : ℕ) where
  step-lasts :
      (c : Call) (s : DedupeStore)
      → e ≤ time c + s.ttl
      → time c < e
      → lasts k e s.entries ≡ true
      → lasts k e (step c s).entries ≡ true
  unfolding step check record_write
  step-lasts (checking j t) s l n h = unexpired-lasts k e t s.entries n h
  step-lasts (recording j t) s l n h = ground (arith, get-put s.entries j k (t + s.ttl))

  step_ttl : (c : Call) (s : DedupeStore) → (step c s).ttl ≡ s.ttl
  unfolding step check record_write
  step_ttl (checking j t) s = refl
  step_ttl (recording j t) s = refl

  run-lasts :
      (cs : List Call) (s : DedupeStore)
      → All (λ c. (e ≤ time c + s.ttl) × (time c < e)) cs
      → lasts k e s.entries ≡ true
      → lasts k e (run cs s).entries ≡ true
  unfolding run
  run-lasts [] s a h = h
  run-lasts (c ∷ cs) s a h =
      run-lasts cs (step c s) (rw (step_ttl c s) a.1) (step-lasts c s a.0.0 a.0.1 h)

lasts_refuses :
    (k : String) (e now : ℕ) (s : DedupeStore)
    → now < e
    → lasts k e s.entries ≡ true
    → (check k now s).0 ≡ false
unfolding check
lasts_refuses k e now s n h = ground (arith, unexpired-lasts k e now s.entries n h)

-- A key that was recorded is refused by check at every time before the recorded time plus the
-- time to live, whatever was checked and recorded in between at times of that interval.
pub duplicate_refused :
    (k : String) (t now : ℕ) (s : DedupeStore) (cs : List Call)
    → All (λ c. (t ≤ time c) × (time c < t + s.ttl)) cs
    → now < t + s.ttl
    → (check k now (run cs (record_write k t s))).0 ≡ false
unfolding record_write
duplicate_refused k t now s cs a n =
    lasts_refuses k (t + s.ttl) now (run cs (record_write k t s)) n (
      run-lasts k (t + s.ttl) cs (record_write k t s) (go cs a)
        (ground (arith, get-put_self s.entries k (t + s.ttl))))
  where
    go :
        (cs : List Call)
        → All (λ c. (t ≤ time c) × (time c < t + s.ttl)) cs
        → All (λ c. ((t + s.ttl) ≤ time c + s.ttl) × (time c < t + s.ttl)) cs
    go [] a = tt
    go (c ∷ cs) a = ((omega (arith, a.0.0), a.0.1), go cs a.1)
