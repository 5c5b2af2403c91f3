-- ===== src/Gateway/Commit/Reserved.antt =====
-- The durable reservation that a fenced `authorize_commit` leaves.
use wire_agent.Base.{ℕ, ◌≡◌, refl, sym, ap, subst, inl, inr, Option, none, some, List, arith}
use wire_agent.Base.Results.{ok, Result-cases}
use wire_agent.Approval.Attempt.{EffectAttempt, AttemptError, begin_reservation, mark_reserved}
use wire_agent.Gateway.State.{
  reservation_failed, GatewayError, denied, Gateway, mark, Write, append_fact,
}
use wire_agent.Gateway.Owner.{reservation_record, or_raise, register_live}
use wire_agent.Gateway.Mint.{Locals, reserve_fenced, Authorization}
use wire_agent.Effect.Record.{EffectLedgerRecord}
use wire_agent.Effect.History.{LedgerError, corrupt, failed, value_error}
use wire_agent.Effect.File.{LedgerFile, append_durable}
use wire_agent.Effect.File.Append.{Shows}
use wire_agent.Effect.File.Outcome.{IsRecorded, append_durable-IsRecorded}
use wire_agent.Gateway.Actions.{bind_on, then_on}

-- The reservation that the ledger shows.
pub record IsReserved (i : Authorization) (l : Locals) (f : LedgerFile) : Type 0 where
  pub history : List EffectLedgerRecord
  pub shows : Shows f history
  pub recorded :
      IsRecorded
        (reservation_record l.grant l.attempt i.snapshot l.binding i.reserve.timestamp)
        history
  pub durable : f.durable ≡ f.lines

or_raise_ok :
    (e : GatewayError) (x : Option LedgerError) (s : Gateway) (v : Unit {0})
    → (or_raise e x s).0 ≡ ok v
    → (x ≡ none) × ((or_raise e x s).1 ≡ s)
unfolding or_raise
or_raise_ok e none s v h = (refl, refl)
or_raise_ok e (some failed) s v h = absurd (cc)
or_raise_ok e (some value_error) s v h = absurd (cc)
or_raise_ok e (some (corrupt c)) s v h = absurd (cc)

pub mark_ledger :
    (h : ℕ) (f : EffectAttempt → Option AttemptError × EffectAttempt) (s : Gateway)
    → (mark h f s).1.ledger ≡ s.ledger
unfolding mark
mark_ledger h f s = ground arith

pub append_fact_ok :
    (w : Write) (r : EffectLedgerRecord) (s t : Gateway)
    → append_fact w r s ≡ (ok none, t)
    → (rs : List EffectLedgerRecord) × Shows t.ledger rs
      × IsRecorded r rs
      × (t.ledger.durable ≡ t.ledger.lines)
unfolding append_fact
append_fact_ok w r s t h = elim (Result-cases (append_durable s.size w.io s.ledger r).0) [
  | inr (d, q) ↦ absurd (ground (arith, q, h))
  | inl (_, q) ↦
      let (rs, a, b, c) = append_durable-IsRecorded s.size w.io s.ledger r q in
      let f : (append_durable s.size w.io s.ledger r).1 ≡ t.ledger = ap (λ z. z.1.ledger) h in
      (rs, subst (λ z. Shows z rs) f a, b, subst (λ z. z.durable ≡ z.lines) f c)
]

pub reserve_fenced-IsReserved :
    (i : Authorization) (l : Locals) (s : Gateway)
    → (reserve_fenced i l s).0 ≡ ok tt
    → IsReserved i l (reserve_fenced i l s).1.ledger
unfolding reserve_fenced
reserve_fenced-IsReserved i l s e =
    let (_, _, e1, f1) =
      then_on (register_live i.attempt i.grant i.snapshot l.binding l.attempt) _ s tt e in
    let s1 : Gateway = (register_live i.attempt i.grant i.snapshot l.binding l.attempt s).1 in
    let (_, _, e2, f2) = then_on (mark i.attempt (begin_reservation l.grant)) _ s1 tt e1 in
    let s2 : Gateway = (mark i.attempt (begin_reservation l.grant) s1).1 in
    let r : EffectLedgerRecord =
      reservation_record l.grant l.attempt i.snapshot l.binding i.reserve.timestamp in
    let (x, g, e3, f3) = bind_on (append_fact i.reserve r) _ s2 tt e2 in
    let s3 : Gateway = (append_fact i.reserve r s2).1 in
    let (_, y, e4, f4) = then_on (or_raise (denied reservation_failed) x) _ s3 tt e3 in
    let (n, z) = or_raise_ok (denied reservation_failed) x s3 tt (cc) in
    let s4 : Gateway = (or_raise (denied reservation_failed) x s3).1 in
    let (rs, a, b, c) = append_fact_ok i.reserve r s2 s3 (cc) in
    let q = mark_ledger i.attempt (mark_reserved l.grant) s4 in
    let w : (reserve_fenced i l s).1.ledger ≡ s3.ledger = cc in
    subst (λ f. IsReserved i l f) (sym w)
      (record { history = rs; shows = a; recorded = b; durable = c })
