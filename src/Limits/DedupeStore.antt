-- ===== src/Limits/DedupeStore.antt =====
-- `DedupeStore` of src/webwire/safety/dedupe.py. Times and the time to live are natural numbers of
-- some unit.
pub mod Refusal
use wire_agent.Base.{
  ℕ, ◌+◌, String, Bool, true, false, ◌≡◌, Option, none, some, List, [], ◌∷◌, ◌==◌, leb, ltb,
  if◌then◌else◌,
}
use wire_agent.Base.Dict.{Dict, get, put}

pub record DedupeStore : Type 0 where
  pub ttl : ℕ
  pub entries : Dict ℕ

-- `_prune`: the entries that have not expired.
unfoldable pub unexpired : ℕ → Dict ℕ → Dict ℕ
unexpired now [] = []
unexpired now ((key, expiry) ∷ d) =
    let rest = unexpired now d in if leb expiry now then rest else (key, expiry) ∷ rest

-- `check`: `true` where the key is no duplicate.
unfoldable pub check : String → ℕ → DedupeStore → Bool × DedupeStore
unfolding unexpired
check key t s =
    let entries = unexpired t s.entries in
    (
      elim (get entries key) [ none ↦ true | some expiry ↦ leb expiry t ],
      record s { entries = entries },
    )

-- `record`
unfoldable pub record_write : String → ℕ → DedupeStore → DedupeStore
record_write key t s = record s { entries = put s.entries key (t + s.ttl) }
