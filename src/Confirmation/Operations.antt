-- ===== src/Confirmation/Operations.antt =====
-- The calls on the confirmation state, with a caller that may also change the token objects that it
-- was given, and what they grant.
use wire_agent.Base.{
  ℕ, suc, String, ◌≡◌, refl, ap, ◌⊎◌, inl, inr, Option, none, some, List, [], ◌∷◌, ◌==◌,
  if◌then◌else◌, text_cases,
}
use wire_agent.Base.Results.{Result, ok, err}
use wire_agent.Base.Dict.{get, put}
use wire_agent.Confirmation.{
  ConfirmationToken, ConfirmationState, ConfirmationStateError, advance_epoch, Binding, issue,
  Verdict, validate_and_consume,
}

-- The calls of a caller, and its change of a token object that a pending authority refers to.
pub data Operation : Type 0 where
  issuing : Option ℕ → Option ℕ → String → Binding → Operation
  advancing : Operation
  consuming : Option ℕ → Option String → Binding → Operation
  tampering : String → ConfirmationToken → Operation

abbrev pub granted : Option String → Result ConfirmationStateError Verdict → Option String
granted t (err e) = none
granted t (ok v) = elim v.blocked_by [ none ↦ t | some x ↦ none ]

-- An operation, with the token that it grants, if any.
unfoldable pub step : Operation → ConfirmationState → Option String × ConfirmationState
step (issuing clock wall t b) s = (none, (issue clock wall t b s).1)
step advancing s = (none, (advance_epoch s).1)
step (consuming clock t b) s = let (v, s') = validate_and_consume clock t b s in (granted t v, s')
step (tampering t x) s = elim (get s.pending t) [
  | none ↦ (none, s)
  | some p ↦ (none, record s { pending = put s.pending t (record p { token = x }) })
]

abbrev pub count_if : String → Option String → ℕ → ℕ
count_if t none n = n
count_if t (some u) n = if u == t then suc n else n

-- How often the operations grant the token `t`.
unfoldable pub grants : String → List Operation → ConfirmationState → ℕ
grants t [] s = 0
grants t (o ∷ os) s = let (g, s') = step o s in count_if t g (grants t os s')

unfoldable pub run : List Operation → ConfirmationState → ConfirmationState
run [] s = s
run (o ∷ os) s = run os (step o s).1

pub count_if-cases :
    (t : String) (g : Option String) (n : ℕ)
    → ((g ≡ some t) × (count_if t g n ≡ suc n)) ⊎ (count_if t g n ≡ n)
count_if-cases t none n = inr refl
count_if-cases t (some u) n = elim (text_cases u t) [
  | inl e ↦ inl (ap some e.1, rw e.0)
  | inr e ↦ inr (rw e.0)
]
