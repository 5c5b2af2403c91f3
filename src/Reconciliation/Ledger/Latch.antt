-- ===== src/Reconciliation/Ledger/Latch.antt =====
-- The durability latch of the `ReconciliationLedger`, and what it says of the file.
use wire_agent.Base.{◌+◌, ℕ, false, ◌≡◌, inl, inr, none, some, arith, Option-cases}
use wire_agent.Storage.{Io, write_all_done, after_write}
use wire_agent.Reconciliation.Record.{ReconciliationRecord}
use wire_agent.Reconciliation.Ledger.{
  PathState, read_records_unchecked, read_authoritative, append_row, matching, append_latched,
  append_clear, append_durable,
}

-- While the latch is clear, every line is durable and none is unfinished.
abbrev pub IsLatched : PathState → Type 0
IsLatched s = s.ambiguous_fact ≡ none → (s.file.durable ≡ s.file.lines) × (s.file.torn ≡ false)

append_row-IsLatched :
    (size : ReconciliationRecord → ℕ) (io : Io) (s : PathState) (r : ReconciliationRecord)
    → s.ambiguous_fact ≡ none
    → IsLatched s
    → IsLatched (append_row size io s r).1
unfolding append_row after_write
append_row-IsLatched size io s r c h = ground (arith, h c, write_all_done (size r + 1) 0 io.writes)

append_latched-IsLatched :
    (io : Io) (s : PathState) (a r : ReconciliationRecord)
    → s.ambiguous_fact ≡ some a
    → IsLatched (append_latched io s a r).1
unfolding append_latched read_records_unchecked matching
append_latched-IsLatched io s a r c = ground arith

append_clear-IsLatched :
    (size : ReconciliationRecord → ℕ) (io : Io) (s : PathState) (r : ReconciliationRecord)
    → s.ambiguous_fact ≡ none
    → IsLatched s
    → IsLatched (append_clear size io s r).1
unfolding append_clear
append_clear-IsLatched size io s r c h = ground (arith, h c, append_row-IsLatched size io s r c h)

-- `append_durable` goes by the latch.
module _ (size : ReconciliationRecord → ℕ) (io : Io) (s : PathState)
    (r : ReconciliationRecord) where
  pub append_durable_clear :
      s.ambiguous_fact ≡ none → append_durable size io s r ≡ append_clear size io s r
  unfolding append_durable
  append_durable_clear c = ground arith

  pub append_durable_latched :
      (a : ReconciliationRecord)
      → s.ambiguous_fact ≡ some a
      → append_durable size io s r ≡ append_latched io s a r
  unfolding append_durable
  append_durable_latched a c = ground arith

-- If before the call a clear latch means that every line of the file is durable and none is
-- unfinished, then the same holds after append_durable, whether it returns or raises and whatever
-- the operating system answers.
pub append_durable-IsLatched :
    (size : ReconciliationRecord → ℕ) (io : Io) (s : PathState) (r : ReconciliationRecord)
    → IsLatched s
    → IsLatched (append_durable size io s r).1
append_durable-IsLatched size io s r h = elim (Option-cases s.ambiguous_fact) [
  | inl c ↦ rw (append_durable_clear size io s r c) (append_clear-IsLatched size io s r c h)
  | inr (a, c) ↦ rw (append_durable_latched size io s r a c) (append_latched-IsLatched io s a r c)
]

pub read_authoritative-IsLatched :
    (io : Io) (s : PathState) → IsLatched s → IsLatched (read_authoritative io s).1
unfolding read_authoritative
read_authoritative-IsLatched io s h = ground (arith, h)
