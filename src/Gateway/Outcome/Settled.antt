-- ===== src/Gateway/Outcome/Settled.antt =====
-- What `record_effect_confirmed` and `record_effect_unknown` leave.
use wire_agent.Base.{
  ℕ, true, ◌≡◌, sym, ap, subst, ◌∙◌, Option, none, some, ◌==◌, eqb, arith, eqb_iff,
}
use package.text.Mathlib.TextEquality.{eq_iff}
use wire_agent.Base.Results.{ok}
use wire_agent.Base.Dict.{get, IsDict}
use wire_agent.Base.Heap.{at}
use wire_agent.Json.{Fields}
use wire_agent.Effect.Record.{EffectState, effect_confirmed, effect_unknown}
use wire_agent.Approval.Attempt.{
  EffectAttempt, AttemptState, AttemptError, effect_confirmed as attempt_confirmed,
  effect_unknown as attempt_unknown, mark_effect_confirmed, mark_effect_unknown,
}
use wire_agent.Gateway.State.{
  EffectPermit, Issued, state_error, not_persisted, not_canonical_attempt, permit_attempt_mismatch,
  not_consumed, wrong_attempt_state, Gateway, Action, require, found, attempt_of, Write,
}
use wire_agent.Gateway.Permit.{canonical_attempt, terminal_record, append_terminal, require_issued}
use wire_agent.Gateway.Consume.{
  validate_outcome_objects, record_outcome, record_effect_confirmed, record_effect_unknown,
}
use wire_agent.Gateway.Actions.{
  then_on, bind_on, read_bind, read_then, require_reads, require_issued_reads, require_issued_ok,
  require_ok, IsIssued,
}
use wire_agent.Gateway.Fact.{IsFact, terminal_record-IsFact}
use wire_agent.Gateway.Outcome.{
  IsDurable, append_terminal-IsDurable, append_terminal_frame, finish, finish-Finished, gone,
}

-- The same, where `f` is the transition of the attempt.
record Completes (r : Write) (st : EffectState)
    (f : EffectAttempt → Option AttemptError × EffectAttempt) (v : Fields) (h ha : ℕ)
    (s t : Gateway) : Type 0 where
  permit : EffectPermit
  issued : IsIssued s h permit
  of_attempt : issued.entry.attempt ≡ ha
  consumed : permit.consumed ≡ true
  attempt : EffectAttempt
  was : at s.attempts ha ≡ some attempt
  lineage : attempt.effect_id ≡ permit.effect_id
  is : at t.attempts ha ≡ some (f attempt).1
  accepted : (f attempt).0 ≡ none
  fact : IsDurable (terminal_record permit st v r.timestamp) t.ledger
  permits : t.permits ≡ s.permits
  gone_now : IsDict s.issued → get t.issued permit.permit_id ≡ none

-- What `record_effect_confirmed` and `record_effect_unknown` leave, where `st` is the recorded state
-- and `after` that of the attempt.
pub record Settled (st : EffectState) (after : AttemptState) (v : Fields) (h ha : ℕ) (s t : Gateway)
    : Type 0 where
  pub permit : EffectPermit
  pub issued : IsIssued s h permit
  pub of_attempt : issued.entry.attempt ≡ ha
  pub consumed : permit.consumed ≡ true
  pub attempt : EffectAttempt
  pub was : at s.attempts ha ≡ some attempt
  pub lineage : attempt.effect_id ≡ permit.effect_id
  pub is : at t.attempts ha ≡ some (record attempt { state = after })
  pub fact : IsFact permit st v t.ledger
  pub permits : t.permits ≡ s.permits
  pub gone_now : IsDict s.issued → get t.issued permit.permit_id ≡ none

Completes-Settled :
    (w : Write) (st : EffectState) (after : AttemptState)
    (f : EffectAttempt → Option AttemptError × EffectAttempt) (v : Fields) (h ha : ℕ)
    (s t : Gateway)
    → ((a : EffectAttempt) → (f a).0 ≡ none → (f a).1 ≡ record a { state = after })
    → Completes w st f v h ha s t
    → Settled st after v h ha s t
Completes-Settled w st after f v h ha s t k c = record {
  permit = c.permit;
  issued = c.issued;
  of_attempt = c.of_attempt;
  consumed = c.consumed;
  attempt = c.attempt;
  was = c.was;
  lineage = c.lineage;
  is = cc (c.is, k c.attempt c.accepted);
  fact = terminal_record-IsFact c.permit st v w.timestamp t.ledger c.fact;
  permits = c.permits;
  gone_now = c.gone_now;
}

confirmed_after :
    (a : EffectAttempt)
    → (mark_effect_confirmed a).0 ≡ none
    → (mark_effect_confirmed a).1 ≡ record a { state = attempt_confirmed }
unfolding mark_effect_confirmed
confirmed_after a h = ground arith

unknown_after :
    (a : EffectAttempt)
    → (mark_effect_unknown a).0 ≡ none
    → (mark_effect_unknown a).1 ≡ record a { state = attempt_unknown }
unfolding mark_effect_unknown
unknown_after a h = ground arith

record Valid (h ha : ℕ) (s : Gateway) (p : EffectPermit) : Type 0 where
  issued : IsIssued s h p
  of_attempt : issued.entry.attempt ≡ ha
  consumed : p.consumed ≡ true
  attempt : EffectAttempt
  was : at s.attempts ha ≡ some attempt
  lineage : attempt.effect_id ≡ p.effect_id

pub canonical_attempt_reads : (p : EffectPermit) (s : Gateway) → (canonical_attempt p s).1 ≡ s
unfolding canonical_attempt
canonical_attempt_reads p s = ground arith

pub canonical_attempt_ok :
    (p : EffectPermit) (s : Gateway) (i : Issued) (ha : ℕ)
    → get s.issued p.permit_id ≡ some i
    → canonical_attempt p s ≡ (ok ha, s)
    → i.attempt ≡ ha
unfolding canonical_attempt
canonical_attempt_ok p s i ha e h = ground (arith, e, h)

attempt_of_reads : (h : ℕ) (s : Gateway) → (attempt_of h s).1 ≡ s
unfolding attempt_of found
attempt_of_reads h s = ground arith

attempt_of_ok :
    (h : ℕ) (s : Gateway) (a : EffectAttempt)
    → attempt_of h s ≡ (ok a, s)
    → at s.attempts h ≡ some a
unfolding attempt_of found
attempt_of_ok h s a e = ground (arith, e)

validate_outcome_objects_ok :
    (h ha : ℕ) (s : Gateway) (p : EffectPermit)
    → (validate_outcome_objects h ha s).0 ≡ ok p
    → ((validate_outcome_objects h ha s).1 ≡ s) × Valid h ha s p
unfolding validate_outcome_objects
validate_outcome_objects_ok h ha s p e =
    let (o, e1, r1, q1) = read_bind (require_issued h) _ s p (require_issued_reads h s) e in
    let (c, e2, r2, q2) = read_bind (canonical_attempt o) _ s p (canonical_attempt_reads o s) r1 in
    let (_, e3, r3, q3) =
      read_then (require (eqb c ha) (state_error not_canonical_attempt)) _ s p (require_reads _ _ s)
        r2 in
    let (a, e4, r4, q4) = read_bind (attempt_of ha) _ s p (attempt_of_reads ha s) r3 in
    let mismatch = state_error permit_attempt_mismatch in
    let (_, _, r5, q5) =
      read_then (require (o.attempt_id == a.attempt_id) mismatch) _ s p (require_reads _ _ s) r4 in
    let (_, _, r6, q6) =
      read_then (require (o.grant_id == a.grant_id) mismatch) _ s p (require_reads _ _ s) r5 in
    let (_, e7, r7, q7) =
      read_then (require (o.effect_id == a.effect_id) mismatch) _ s p (require_reads _ _ s) r6 in
    let (_, e8, r8, q8) =
      read_then (require o.consumed (state_error not_consumed)) _ s p (require_reads _ _ s) r7 in
    let (_, _, r9, q9) =
      read_then (require _ (state_error wrong_attempt_state)) _ s p (require_reads _ _ s) r8 in
    let issued = (require_issued_ok h s s o e1).0 in
    let x : o ≡ p = cc in
    (
      ap (λ z. z.1) (q1 ∙ q2 ∙ q3 ∙ q4 ∙ q5 ∙ q6 ∙ q7 ∙ q8 ∙ q9),
      subst (Valid h ha s) x (record {
        issued = issued;
        of_attempt = cc (
          canonical_attempt_ok o s issued.entry c issued.listed e2,
          (eqb_iff c ha).0 (require_ok (eqb c ha) (state_error not_canonical_attempt) s s tt e3).0,
        );
        consumed = (require_ok o.consumed (state_error not_consumed) s s tt e8).0;
        attempt = a;
        was = attempt_of_ok ha s a e4;
        lineage = sym (
            (eq_iff o.effect_id a.effect_id).0
              (require_ok (o.effect_id == a.effect_id) mismatch s s tt e7).0);
      }),
    )

record_outcome-Completes :
    (w : Write) (st : EffectState) (f : EffectAttempt → Option AttemptError × EffectAttempt)
    (v : Fields) (h ha : ℕ) (s : Gateway)
    → (record_outcome w st f v h ha s).0 ≡ ok tt
    → Completes w st f v h ha s (record_outcome w st f v h ha s).1
unfolding record_outcome finish
record_outcome-Completes w st f v h ha s e =
    let (p, e1, r1, q1) = bind_on (validate_outcome_objects h ha) _ s tt e in
    let (x, valid) = validate_outcome_objects_ok h ha s p (ap (λ z. z.0) e1) in
    let k : Action (Unit {0}) = append_terminal w (state_error not_persisted) p st v in
    let (_, e2, r2, q2) = then_on k (finish f ha p) s tt (cc) in
    let fact =
      append_terminal-IsDurable w (state_error not_persisted) p st v s (ap (λ z. z.0) e2) in
    let g = append_terminal_frame w (state_error not_persisted) p st v s in
    let done = finish-Finished f ha p (k s).1 r2 in
    let whole : record_outcome w st f v h ha s ≡ finish f ha p (k s).1 = cc (q1, x, q2) in
    let were : some done.attempt ≡ some valid.attempt =
      cc (done.was, ap (λ z. at z.attempts ha) g, valid.was) in
    let same : done.attempt ≡ valid.attempt = cc in
    subst (λ z. Completes w st f v h ha s z.1) (sym whole)
      (record {
        permit = p;
        issued = valid.issued;
        of_attempt = valid.of_attempt;
        consumed = valid.consumed;
        attempt = done.attempt;
        was = cc (done.was, ap (λ z. z.attempts) g);
        lineage = cc (same, valid.lineage);
        is = done.is;
        accepted = done.accepted;
        fact = subst (λ z. IsDurable (terminal_record p st v w.timestamp) z) (sym done.ledger) fact;
        permits = cc (done.permits, ap (λ z. z.permits) g);
        gone_now = λ d.
            gone s.issued (finish f ha p (k s).1).1.issued p d
              (cc (done.issued, ap (λ z. z.issued) g));
      })

-- When record_effect_confirmed returns, the permit was the one issued under its id, for this
-- attempt and its effect, and consumed; the ledger is readable with every line durable, and its
-- latest record of the permit's effect is an EFFECT_CONFIRMED record with each lineage field and
-- the approver of the permit, whose details are the evidence, the ids of the permit and the
-- effect that it was used for; the attempt is as before but has the state effect_confirmed; and,
-- if no permit id had two entries, the permit is not issued any more.
pub record_effect_confirmed-Settled :
    (w : Write) (v : Fields) (h ha : ℕ) (s : Gateway)
    → (record_effect_confirmed w v h ha s).0 ≡ ok tt
    → Settled effect_confirmed attempt_confirmed v h ha s (record_effect_confirmed w v h ha s).1
unfolding record_effect_confirmed
record_effect_confirmed-Settled w v h ha s e =
    Completes-Settled w effect_confirmed attempt_confirmed mark_effect_confirmed v h ha s _
      confirmed_after (record_outcome-Completes w effect_confirmed mark_effect_confirmed v h ha s e)

-- When record_effect_unknown returns, the permit was the one issued under its id, for this
-- attempt and its effect, and consumed; the ledger is readable with every line durable, and its
-- latest record of the permit's effect is an EFFECT_UNKNOWN record with each lineage field and
-- the approver of the permit, whose details are the evidence, the ids of the permit and the
-- effect that it was used for; the attempt is as before but has the state effect_unknown; and, if
-- no permit id had two entries, the permit is not issued any more.
pub record_effect_unknown-Settled :
    (w : Write) (v : Fields) (h ha : ℕ) (s : Gateway)
    → (record_effect_unknown w v h ha s).0 ≡ ok tt
    → Settled effect_unknown attempt_unknown v h ha s (record_effect_unknown w v h ha s).1
unfolding record_effect_unknown
record_effect_unknown-Settled w v h ha s e =
    Completes-Settled w effect_unknown attempt_unknown mark_effect_unknown v h ha s _ unknown_after
      (record_outcome-Completes w effect_unknown mark_effect_unknown v h ha s e)
