-- ===== src/Approval/Attempt/Life.antt =====
-- The life of an attempt under its approval, over any sequence of calls on both.
use wire_agent.Base.{
  ◌+◌, String, Bool, true, false, ◌≡◌, refl, ◌↔◌, none, some, List, [], ◌∷◌, eq_iff, arith,
  opt_eq_iff, ◌≢◌, All,
}
use wire_agent.Approval.Grant.{active, ApprovalGrant, release_claim}
use wire_agent.Approval.Grant.Live.{state_cases}
use wire_agent.Approval.Grant.Spend.{Operation}
use wire_agent.Approval.Grant.Spend as Spend
use wire_agent.Approval.Grant.Claim.{releases, step_holder}
use wire_agent.Approval.Attempt.{
  AttemptState, preparing, no_effect, reserved, effect_confirmed, effect_unknown, is_preparing,
  is_open, EffectAttempt, begin_reservation, mark_no_effect, mark_no_effect_after_authority,
  mark_reserved, mark_effect_confirmed, mark_effect_unknown,
}

-- The calls on an attempt, and any other call on its approval.
pub data Move : Type 0 where
  beginning closing_clean closing_after reserving confirming losing : Move
  on_grant : Operation → Move

unfoldable pub move : Move → ApprovalGrant → EffectAttempt → ApprovalGrant × EffectAttempt
move beginning g a = (g, (begin_reservation g a).1)
move closing_clean g a = let (e, g', a') = mark_no_effect g a in (g', a')
move closing_after g a = (g, (mark_no_effect_after_authority a).1)
move reserving g a = (g, (mark_reserved g a).1)
move confirming g a = (g, (mark_effect_confirmed a).1)
move losing g a = (g, (mark_effect_unknown a).1)
move (on_grant o) g a = ((Spend.step o g).1, a)

unfoldable pub run : List Move → ApprovalGrant → EffectAttempt → ApprovalGrant × EffectAttempt
run [] g a = (g, a)
run (m ∷ ms) g a = let (g', a') = move m g a in run ms g' a'

-- Nothing can have been reserved for the attempt, and it holds its own active approval.
pub record IsClean (g : ApprovalGrant) (a : EffectAttempt) : Type 0 where
  pub attempt : a.state ≡ preparing
  pub own : g.grant_id ≡ a.grant_id
  pub not_started : a.reservation_started ≡ false
  pub live : g.state ≡ active
  pub holder : g.claimed_by ≡ some a.attempt_id

preparing_iff : (s : AttemptState) → (is_preparing s ≡ true) ↔ (s ≡ preparing)
preparing_iff preparing = ground arith
preparing_iff no_effect = ground arith
preparing_iff reserved = ground arith
preparing_iff effect_confirmed = ground arith
preparing_iff effect_unknown = ground arith

release_claim_ok :
    (t : String) (g : ApprovalGrant)
    → (((release_claim t g).0 ≡ none) ↔ ((g.state ≡ active) × (g.claimed_by ≡ some t)))
      × (((release_claim t g).0 ≡ none)
          → (release_claim t g).1
            ≡ record g { claimed_by = none; precommit_attempts = g.precommit_attempts + 1 })
      × (((release_claim t g).0 ≢ none) → (release_claim t g).1 ≡ g)
unfolding release_claim
release_claim_ok t g = ground (arith, state_cases g.state, opt_eq_iff g.claimed_by (some t))

-- mark_no_effect succeeds exactly for a preparing attempt whose reservation has not started and
-- which holds the claim of its own active approval, and then the claim is free, one try is
-- counted and the attempt is over without effect.
pub mark_no_effect-IsClean :
    (g : ApprovalGrant) (a : EffectAttempt)
    → (((mark_no_effect g a).0 ≡ none) ↔ IsClean g a)
      × (IsClean g a
          → (mark_no_effect g a) ≡ (
            none,
            record g { claimed_by = none; precommit_attempts = g.precommit_attempts + 1 },
            record a { state = no_effect },
          ))
unfolding mark_no_effect
mark_no_effect-IsClean g a =
    ground
      (arith, preparing_iff a.state, eq_iff g.grant_id a.grant_id, release_claim_ok a.attempt_id g)

move_final :
    (m : Move) (g : ApprovalGrant) (a : EffectAttempt)
    → is_open a.state ≡ false
    → (move m g a).1 ≡ a
unfolding move begin_reservation mark_no_effect mark_no_effect_after_authority mark_reserved
    mark_effect_confirmed mark_effect_unknown
move_final beginning g a h = ground arith
move_final closing_clean g a h = ground arith
move_final closing_after g a h = ground arith
move_final reserving g a h = ground arith
move_final confirming g a h = ground arith
move_final losing g a h = ground arith
move_final (on_grant o) g a h = refl

-- An attempt that is neither preparing nor reserved is left as it is by every sequence of calls.
pub attempt_final :
    (ms : List Move) (g : ApprovalGrant) (a : EffectAttempt)
    → is_open a.state ≡ false
    → (run ms g a).1 ≡ a
unfolding run
attempt_final [] g a h = refl
attempt_final (m ∷ ms) g a h =
    ground (arith, move_final m g a h, attempt_final ms (move m g a).0 (move m g a).1)

-- The move gives the claim of `t` back by a call on the approval itself.
abbrev pub gives_back : String → Move → Bool
gives_back t beginning = false
gives_back t closing_clean = false
gives_back t closing_after = false
gives_back t reserving = false
gives_back t confirming = false
gives_back t losing = false
gives_back t (on_grant o) = releases t o

-- The attempt holds the claim and has begun to reserve.
pub record IsCommitted (t : String) (g : ApprovalGrant) (a : EffectAttempt) : Type 0 where
  pub attempt_id : a.attempt_id ≡ t
  pub started : a.reservation_started ≡ true
  pub holder : g.claimed_by ≡ some t

module _ (t : String) where
  move-IsCommitted :
      (m : Move) (g : ApprovalGrant) (a : EffectAttempt)
      → gives_back t m ≡ false
      → IsCommitted t g a
      → IsCommitted t (move m g a).0 (move m g a).1
  unfolding move begin_reservation mark_no_effect mark_no_effect_after_authority mark_reserved
      mark_effect_confirmed mark_effect_unknown
  move-IsCommitted beginning g a n l = ground arith
  move-IsCommitted closing_clean g a n l = ground arith
  move-IsCommitted closing_after g a n l = ground arith
  move-IsCommitted reserving g a n l = ground arith
  move-IsCommitted confirming g a n l = ground arith
  move-IsCommitted losing g a n l = ground arith
  move-IsCommitted (on_grant o) g a n l = ground (arith, step_holder g t o l.holder n)

  -- Once an attempt that holds the claim has begun its reservation, no sequence of calls on the
  -- attempt and the approval gives the claim up or clears the latch, unless the sequence has a
  -- release_claim for that attempt made on the approval itself.
  pub run-IsCommitted :
      (ms : List Move) (g : ApprovalGrant) (a : EffectAttempt)
      → All (λ m. gives_back t m ≡ false) ms
      → IsCommitted t g a
      → IsCommitted t (run ms g a).0 (run ms g a).1
  unfolding run
  run-IsCommitted [] g a n l = l
  run-IsCommitted (m ∷ ms) g a n l =
      run-IsCommitted ms (move m g a).0 (move m g a).1 n.1 (move-IsCommitted m g a n.0 l)
