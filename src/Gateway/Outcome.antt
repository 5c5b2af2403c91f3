-- ===== src/Gateway/Outcome.antt =====
-- What the end of a permit's life leaves: the durable fact of its outcome, the terminal attempt, and
-- no authority.
pub mod Settled
pub mod Closed
use wire_agent.Base.{
  ℕ, suc, ◌+◌, ◌≤◌, ◌<◌, String, Bool, true, false, not, ◌&&◌, ◌≡◌, refl, sym, ap, subst, ◌≢◌, ◌∙◌,
  inl, inr, Option, none, some, List, [], ◌∷◌, ◌++◌, ◌==◌, eqb, arith, if◌then◌else◌, Bool-cases,
  Option-cases, length, eqb_iff, eq_refl,
}
use package.text.Mathlib.TextEquality.{eq_iff}
use wire_agent.Base.Results.{Result, ok, err, Result-cases}
use wire_agent.Base.Dict.{Dict, get, pop, get-pop, IsDict}
use wire_agent.Base.Heap.{at, set_at, at-set_at_same}
use wire_agent.Base.Strings.{strip}
use wire_agent.Json.{Fields, field, end, name, text}
use wire_agent.Effect.Record.{
  EffectLedgerRecord, EffectState, no_effect, effect_confirmed, effect_unknown,
}
use wire_agent.Effect.History.{LedgerError}
use wire_agent.Effect.File.Append.{Shows}
use wire_agent.Effect.File.Outcome.{IsRecorded}
use wire_agent.Effect.File.{LedgerFile}
use wire_agent.Approval.Attempt.{
  EffectAttempt, AttemptError, AttemptState, effect_confirmed as attempt_confirmed,
  effect_unknown as attempt_unknown, mark_effect_confirmed, mark_effect_unknown,
}
use wire_agent.Gateway.State.{
  EffectPermit, Issued, GatewayDenied, no_effect_close_failed, GatewayError, denied, state_error,
  already_consumed, not_persisted, not_canonical_attempt, permit_attempt_mismatch, not_consumed,
  wrong_attempt_state, empty_reason, reserved_detail_keys, Gateway, Action, ret, throw, ◌>>=◌, ◌>>◌,
  require, modify, found, attempt_of, permit_of, mark, Write, append_fact,
}
use wire_agent.Gateway.Owner.{retire_live, retire_of, drop_owner}
use wire_agent.Gateway.Permit.{
  canonical_attempt, evict, overlaps, terminal_record, raise_terminal, append_terminal,
  close_unconsumed, close_unconsumed_permit_no_effect, require_issued,
}
use wire_agent.Gateway.Consume.{
  validate_outcome_objects, record_outcome, record_effect_confirmed, record_effect_unknown,
}
use wire_agent.Gateway.Actions.{
  then_on, bind_on, read_bind, read_then, require_reads, require_issued_reads, require_issued_ok,
  require_ok, IsIssued,
}
use wire_agent.Gateway.Commit.Reserved.{append_fact_ok, mark_ledger}
use wire_agent.Gateway.Later.{Later, Keeps}

-- The ledger durably shows the record as the latest fact of its effect.
pub record IsDurable (r : EffectLedgerRecord) (f : LedgerFile) : Type 0 where
  pub history : List EffectLedgerRecord
  pub shows : Shows f history
  pub recorded : IsRecorded r history
  pub durable : f.durable ≡ f.lines

raise_terminal_ok :
    (e : GatewayError) (x : Option LedgerError) (s : Gateway)
    → (raise_terminal e x s).0 ≡ ok tt
    → (x ≡ none) × ((raise_terminal e x s).1 ≡ s)
raise_terminal_ok e none s h = (refl, refl)
raise_terminal_ok e (some d) s h = absurd (cc)

pub append_terminal-IsDurable :
    (w : Write) (e : GatewayError) (p : EffectPermit) (st : EffectState) (v : Fields) (s : Gateway)
    → (append_terminal w e p st v s).0 ≡ ok tt
    → IsDurable (terminal_record p st v w.timestamp) (append_terminal w e p st v s).1.ledger
unfolding append_terminal
append_terminal-IsDurable w e p st v s h =
    let (_, _, r1, q1) =
      read_then (require (not (overlaps v)) (state_error reserved_detail_keys)) _ s tt
        (require_reads _ _ s) h in
    let r : EffectLedgerRecord = terminal_record p st v w.timestamp in
    let (x, g, r2, q2) = bind_on (append_fact w r) _ s tt r1 in
    let t : Gateway = (append_fact w r s).1 in
    let (n, y) = raise_terminal_ok e x t r2 in
    let (rs, a, b, c) = append_fact_ok w r s t (cc) in
    let z : t ≡ (append_terminal w e p st v s).1 = cc in
    subst (λ f. IsDurable r f.ledger) z
      (record { history = rs; shows = a; recorded = b; durable = c })

retire_of_frame :
    (h : ℕ) (a : EffectAttempt) (s : Gateway)
    → (retire_of h a s).1 ≡ record s { live = (retire_of h a s).1.live }
unfolding retire_of drop_owner
retire_of_frame h a s = ground arith

retire_live_frame :
    (h : ℕ) (s : Gateway) → (retire_live h s).1 ≡ record s { live = (retire_live h s).1.live }
unfolding retire_live retire_of drop_owner attempt_of found ◌>>=◌
retire_live_frame h s = ground arith

-- The end that the three calls share, once the fact is durable.
unfoldable pub finish :
    (EffectAttempt → Option AttemptError × EffectAttempt) → ℕ → EffectPermit → Action (Unit {0})
finish f ha p = do mark ha f; retire_live ha; modify (evict p)

pub record Finished (f : EffectAttempt → Option AttemptError × EffectAttempt) (ha : ℕ)
    (p : EffectPermit) (s t : Gateway) : Type 0 where
  pub attempt : EffectAttempt
  pub was : at s.attempts ha ≡ some attempt
  pub accepted : (f attempt).0 ≡ none
  pub is : at t.attempts ha ≡ some (f attempt).1
  pub ledger : t.ledger ≡ s.ledger
  pub permits : t.permits ≡ s.permits
  pub issued : t.issued ≡ pop s.issued p.permit_id

mark_ok :
    (h : ℕ) (f : EffectAttempt → Option AttemptError × EffectAttempt) (s t : Gateway) (v : Unit {0})
    → mark h f s ≡ (ok v, t)
    → (a : EffectAttempt) × (at s.attempts h ≡ some a)
      × ((f a).0 ≡ none)
      × (t ≡ record s { attempts = set_at s.attempts h (f a).1 })
unfolding mark
mark_ok h f s t v e = elim (Option-cases (at s.attempts h)) [
  | inl x ↦ absurd (ground (arith, x, e))
  | inr (a, x) ↦ elim (Option-cases (f a).0) [
    | inl y ↦ (a, x, y, ground (arith, x, y, e))
    | inr (d, y) ↦ absurd (ground (arith, x, y, e))
  ]
]

pub finish-Finished :
    (f : EffectAttempt → Option AttemptError × EffectAttempt) (ha : ℕ) (p : EffectPermit)
    (s : Gateway)
    → (finish f ha p s).0 ≡ ok tt
    → Finished f ha p s (finish f ha p s).1
unfolding finish modify evict
finish-Finished f ha p s e =
    let (v, e1, r1, q1) = then_on (mark ha f) _ s tt e in
    let t : Gateway = (mark ha f s).1 in
    let (a, w, n, g) = mark_ok ha f s t v e1 in
    let (_, _, r2, q2) = then_on (retire_live ha) _ t tt r1 in
    let k = retire_live_frame ha t in
    subst (λ z. Finished f ha p s z.1) (sym (q1 ∙ q2))
      (record {
        attempt = a;
        was = w;
        accepted = n;
        is = cc (
          at-set_at_same s.attempts ha (f a).1 a w,
          ap (λ z. z.attempts) g,
          ap (λ z. z.attempts) k,
        );
        ledger = cc (ap (λ z. z.ledger) g, ap (λ z. z.ledger) k);
        permits = cc (ap (λ z. z.permits) g, ap (λ z. z.permits) k);
        issued = cc (ap (λ z. z.issued) g, ap (λ z. z.issued) k);
      })

pub append_terminal_frame :
    (w : Write) (e : GatewayError) (p : EffectPermit) (st : EffectState) (v : Fields) (s : Gateway)
    → (append_terminal w e p st v s).1
      ≡ record s { ledger = (append_terminal w e p st v s).1.ledger }
unfolding append_terminal require append_fact ◌>>=◌ ◌>>◌
append_terminal_frame w e p st v s = ground arith

-- The permit is no longer issued.
pub gone :
    (d e : Dict Issued) (p : EffectPermit)
    → IsDict d
    → e ≡ pop d p.permit_id
    → get e p.permit_id ≡ none
gone d e p i q = rw q (ground (arith, get-pop d p.permit_id p.permit_id i, eq_refl p.permit_id))
