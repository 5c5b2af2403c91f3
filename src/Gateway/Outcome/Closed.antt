-- ===== src/Gateway/Outcome/Closed.antt =====
-- What `close_unconsumed_permit_no_effect` leaves: proof of no effect, and no authority.
use wire_agent.Base.{
  ℕ, String, Bool, true, false, not, ◌≡◌, refl, sym, ap, subst, ◌∙◌, none, some, List, ◌==◌, arith,
  if◌then◌else◌,
}
use wire_agent.Base.Results.{ok}
use wire_agent.Base.Dict.{get, pop, pop-IsDict, IsDict}
use wire_agent.Base.Heap.{at}
use wire_agent.Base.Strings.{strip}
use wire_agent.Json.{Fields, field, end, name, text}
use wire_agent.Effect.Record.{no_effect}
use wire_agent.Approval.Attempt.{EffectAttempt, no_effect as attempt_no_effect}
use wire_agent.Gateway.State.{
  EffectPermit, no_effect_close_failed, denied, state_error, already_consumed, empty_reason,
  Gateway, Action, ret, require, found, permit_of, Write,
}
use wire_agent.Gateway.Permit.{
  canonical_attempt, terminal_record, append_terminal, close_unconsumed,
  close_unconsumed_permit_no_effect, require_issued,
}
use wire_agent.Gateway.Actions.{
  then_on, read_bind, read_then, require_reads, require_issued_reads, require_issued_ok, require_ok,
  IsIssued,
}
use wire_agent.Gateway.Outcome.{
  IsDurable, append_terminal-IsDurable, append_terminal_frame, finish, finish-Finished, gone,
}
use wire_agent.Gateway.Fact.{IsFact, terminal_record-IsFact}
use wire_agent.Gateway.Outcome.Settled.{canonical_attempt_reads, canonical_attempt_ok}
use wire_agent.Gateway.Once.{IsRetired, retired_final}
use wire_agent.Gateway.Run.{Operation, consumptions}
use wire_agent.Approval.Attempt.{mark_no_effect_after_authority}

-- The details that the closure records.
abbrev pub closing_details : String → Fields
closing_details reason = field (name "reason") (text (strip reason)) end

-- What the closure leaves.
pub record Closed (reason : String) (h : ℕ) (s t : Gateway) : Type 0 where
  pub permit : EffectPermit
  pub issued : IsIssued s h permit
  pub unused : permit.consumed ≡ false
  pub attempt : EffectAttempt
  pub was : at s.attempts issued.entry.attempt ≡ some attempt
  pub is : at t.attempts issued.entry.attempt ≡ some (record attempt { state = attempt_no_effect })
  pub fact : permit.fenced ≡ true → IsFact permit no_effect (closing_details reason) t.ledger
  pub retired : IsDict s.issued → IsRetired h t

-- The record of the closure, where there is one.
begin_closure : Bool → Write → EffectPermit → String → Action (Unit {0})
begin_closure fenced w p reason =
    if fenced
    then append_terminal w (denied no_effect_close_failed) p no_effect
        (field (name "reason") (text reason) end)
    else ret tt

begin_closure_frame :
    (b : Bool) (w : Write) (p : EffectPermit) (r : String) (s : Gateway)
    → (begin_closure b w p r s).1 ≡ record s { ledger = (begin_closure b w p r s).1.ledger }
unfolding begin_closure
begin_closure_frame true w p r s = append_terminal_frame w _ p no_effect _ s
begin_closure_frame false w p r s = refl

begin_closure-IsDurable :
    (b : Bool) (w : Write) (p : EffectPermit) (r : String) (s : Gateway)
    → (begin_closure b w p r s).0 ≡ ok tt
    → b ≡ true
    → IsDurable
        (terminal_record p no_effect (field (name "reason") (text r) end) w.timestamp)
        (begin_closure b w p r s).1.ledger
unfolding begin_closure
begin_closure-IsDurable true w p r s e t = append_terminal-IsDurable w _ p no_effect _ s e
begin_closure-IsDurable false w p r s e t = absurd (cc)

permit_of_reads : (h : ℕ) (s : Gateway) → (permit_of h s).1 ≡ s
unfolding permit_of found
permit_of_reads h s = ground arith

permit_of_ok :
    (h : ℕ) (s : Gateway) (p : EffectPermit) → permit_of h s ≡ (ok p, s) → at s.permits h ≡ some p
unfolding permit_of found
permit_of_ok h s p e = ground (arith, e)

not-true : (b : Bool) → not b ≡ true → b ≡ false
not-true b h = ground arith

no_effect_after :
    (a : EffectAttempt)
    → (mark_no_effect_after_authority a).0 ≡ none
    → (mark_no_effect_after_authority a).1 ≡ record a { state = attempt_no_effect }
unfolding mark_no_effect_after_authority
no_effect_after a h = ground arith

closed :
    (w : Write) (reason : String) (h : ℕ) (s : Gateway) (p : EffectPermit)
    → IsIssued s h p
    → (close_unconsumed w (strip reason) no_effect_close_failed h s).0 ≡ ok tt
    → Closed reason h s (close_unconsumed w (strip reason) no_effect_close_failed h s).1
unfolding close_unconsumed finish begin_closure
closed w reason h s p i e =
    let (o, e0, r0, q0) = read_bind (permit_of h) _ s tt (permit_of_reads h s) e in
    let x : some o ≡ some p = cc (permit_of_ok h s o e0, i.object) in
    let y : o ≡ p = cc in
    let (_, e1, r1, q1) =
      read_then (require (not o.consumed) (state_error already_consumed)) _ s tt
        (require_reads _ _ s) r0 in
    let (ha, e2, r2, q2) =
      read_bind (canonical_attempt o) _ s tt (canonical_attempt_reads o s) r1 in
    let k : Action (Unit {0}) = begin_closure o.fenced w o (strip reason) in
    let (_, e3, r3, q3) = then_on k (finish mark_no_effect_after_authority ha o) s tt r2 in
    let done = finish-Finished mark_no_effect_after_authority ha o (k s).1 r3 in
    let g = begin_closure_frame o.fenced w o (strip reason) s in
    let t : Gateway = (finish mark_no_effect_after_authority ha o (k s).1).1 in
    let iss : t.issued ≡ pop s.issued o.permit_id = cc (done.issued, ap (λ z. z.issued) g) in
    let own : i.entry.attempt ≡ ha =
      canonical_attempt_ok o s i.entry ha
        (subst (λ z. get s.issued z.permit_id ≡ some i.entry) (sym y) i.listed) e2 in
    subst (λ z. Closed reason h s z.1) (sym (q0 ∙ q1 ∙ q2 ∙ q3))
      (record {
        permit = p;
        issued = i;
        unused = cc (
          y,
          not-true o.consumed
              (require_ok (not o.consumed) (state_error already_consumed) s s tt e1).0,
        );
        attempt = done.attempt;
        was = cc (own, done.was, ap (λ z. z.attempts) g);
        is = cc (own, done.is, no_effect_after done.attempt done.accepted);
        fact = λ f.
            let made =
              terminal_record-IsFact o no_effect (closing_details reason) w.timestamp (k s).1.ledger
                (begin_closure-IsDurable o.fenced w o (strip reason) s (ap (λ z. z.0) e3)
                  (cc (y, f))) in
            subst (λ z. IsFact p no_effect (closing_details reason) z) (sym done.ledger)
              (subst (λ z. IsFact z no_effect (closing_details reason) (k s).1.ledger) y made);
        retired = λ d. (
          p,
          cc (done.permits, ap (λ z. z.permits) g, i.object),
          subst IsDict (sym iss) (pop-IsDict s.issued o.permit_id d),
          λ j q m.
              let z = gone s.issued t.issued o d iss in
              let u : get t.issued p.permit_id ≡ none =
                subst (λ z. get t.issued z.permit_id ≡ none) y z in
              absurd (cc),
        );
      })

-- When close_unconsumed_permit_no_effect returns, the permit was the one issued under its id and
-- unused; its attempt is as before but has the state no_effect; if the permit is fenced, the
-- ledger is readable with every line durable, and its latest record of the permit's effect is a
-- NO_EFFECT record with each lineage field and the approver of the permit, whose details are the
-- stripped reason, the ids of the permit and the effect that it is marked with; and, if no permit
-- id had two entries, the permit is not issued any more.
pub close_unconsumed-Closed :
    (w : Write) (reason : String) (h : ℕ) (s : Gateway)
    → (close_unconsumed_permit_no_effect w reason h s).0 ≡ ok tt
    → Closed reason h s (close_unconsumed_permit_no_effect w reason h s).1
unfolding close_unconsumed_permit_no_effect
close_unconsumed-Closed w reason h s e =
    let (_, _, r0, q0) =
      read_then (require (not (strip reason == "")) (state_error empty_reason)) _ s tt
        (require_reads _ _ s) e in
    let (p, e1, r1, q1) = read_then (require_issued h) _ s tt (require_issued_reads h s) r0 in
    subst (λ z. Closed reason h s z.1) (sym (q0 ∙ q1))
      (closed w reason h s p (require_issued_ok h s s p e1).0 r1)

-- If no permit id has two entries and close_unconsumed_permit_no_effect returns, the permit is
-- never consumed afterwards, whatever follows.
pub close_unconsumed_final :
    (w : Write) (reason : String) (h : ℕ) (s : Gateway) (os : List Operation)
    → IsDict s.issued
    → (close_unconsumed_permit_no_effect w reason h s).0 ≡ ok tt
    → consumptions h os (close_unconsumed_permit_no_effect w reason h s).1 ≡ 0
close_unconsumed_final w reason h s os d e =
    retired_final h os (close_unconsumed_permit_no_effect w reason h s).1
      ((close_unconsumed-Closed w reason h s e).retired d)
