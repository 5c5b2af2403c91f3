-- ===== src/Confirmation/Examples.antt =====
-- The theorems on confirmations at concrete calls.
use wire_agent.Base.{ℕ, ◌≤◌, ◌↔◌, ◌≡◌, refl, none, some, [], ◌∷◌}
use wire_agent.Base.Dict.{get, put}
use wire_agent.Risk.{private_reversible}
use wire_agent.Confirmation.{
  PendingAuthority, ConfirmationState, Binding, advance_epoch, issue, issue_at, sample_authority,
  new_pending,
}
use wire_agent.Confirmation.Operations.{Operation, issuing, consuming, step, grants, run}
use wire_agent.Confirmation.Authority.{
  IsSample, Authorises, grants-le-one, advance_revokes, granted_iff,
}

abbrev like : Binding
like = record { intent_hash = "i1"; risk_tier = private_reversible; capability_name = "like" }

abbrev start : ConfirmationState
start = record { ttl_seconds = 60; epoch = 0; pending = []; last_authority_sample = none }

abbrev asked : Operation
asked = issuing (some 5) (some 1000) "t1" like

abbrev used : Operation
used = consuming (some 7) (some "t1") like

grants-le-one_example : grants "t1" (asked ∷ (used ∷ (used ∷ (asked ∷ (used ∷ []))))) start ≤ 1
grants-le-one_example = grants-le-one "t1" (asked ∷ (used ∷ (used ∷ (asked ∷ (used ∷ []))))) start

advance_revokes_example : grants "t1" (used ∷ []) (advance_epoch (run (asked ∷ []) start)).1 ≡ 0
unfolding run step issue issue_at sample_authority get put
advance_revokes_example =
    advance_revokes start (asked ∷ []) (used ∷ []) "t1" (new_pending start like "t1" 5 1000) refl
      refl

granted_iff_example : ((step used (run (asked ∷ []) start)).0 ≡ some "t1") ↔ (
    (now : ℕ) × (p : PendingAuthority) × IsSample (some 7) now (run (asked ∷ []) start)
    × (get (run (asked ∷ []) start).pending "t1" ≡ some p)
    × Authorises (run (asked ∷ []) start).epoch now like p)
granted_iff_example = granted_iff (some 7) "t1" like (run (asked ∷ []) start)
