-- ===== src/Gateway/Later.antt =====
-- What every call of the gateway leaves of its past: a permit keeps its terms and, once consumed,
-- its use; an approval that is not active stays as it is; an epoch never falls; and a permit that is
-- no longer issued is not issued again.
pub mod Steps
pub mod Owners
pub mod Calls
pub mod Crossing
pub mod Authorizing
use wire_agent.Base.{
  ℕ, ◌+◌, ◌≤◌, ◌<◌, String, Bool, true, false, not, ◌&&◌, ◌≡◌, refl, ◌≢◌, ◌⊎◌, inl, inr, Option,
  none, some, List, [], ◌∷◌, ◌++◌, ◌==◌, eqb, arith, if◌then◌else◌, Bool-cases, Option-cases,
  length, text_cases,
}
use wire_agent.Base.Results.{Result, ok, err, Result-cases}
use wire_agent.Base.Dict.{Dict, get, put, pop, IsDict, get-put, get-pop, put-IsDict, pop-IsDict}
use wire_agent.Base.Heap.{
  at, set_at, at-set_at_same, at-set_at_other, at-append, at-length, length-set_at,
}
use wire_agent.Policy.{EffectPolicy, EffectPolicyRegistry}
use wire_agent.Approval.Grant.{ApprovalGrant, is_active}
use wire_agent.Gateway.State.{
  EffectPermit, Issued, GatewayError, Gateway, Action, ret, throw, and_then, ◌>>=◌, ◌>>◌,
}

-- A permit without its use.
unfoldable pub terms : EffectPermit → EffectPermit
terms p = record p { consumed = false; consumed_effect = none; consumed_at = none }

abbrev pub KeepsPermit : EffectPermit → List EffectPermit → ℕ → Type 0
KeepsPermit p ps h =
    (q : EffectPermit) × (at ps h ≡ some q) × (terms q ≡ terms p) × (p.consumed ≡ true → q ≡ p)

abbrev pub KeepsPermits : List EffectPermit → List EffectPermit → Type 0
KeepsPermits ps qs =
    (length ps ≤ length qs) × ((h : ℕ) (p : EffectPermit) → at ps h ≡ some p → KeepsPermit p qs h)

abbrev pub KeepsGrants : List ApprovalGrant → List ApprovalGrant → Type 0
KeepsGrants gs hs =
    (h : ℕ) (g : ApprovalGrant) → at gs h ≡ some g → is_active g.state ≡ false → at hs h ≡ some g

abbrev pub KeepsEpochs : List ℕ → List ℕ → Type 0
KeepsEpochs es fs = (h e : ℕ) → at es h ≡ some e → (f : ℕ) × (at fs h ≡ some f) × (e ≤ f)

-- Of the first `n` permits the new map issues only what the old one does.
abbrev pub KeepsIssued : ℕ → Dict Issued → Dict Issued → Type 0
KeepsIssued n d e =
    IsDict d
    → IsDict e × ((k : String) (i : Issued) → get e k ≡ some i → i.permit < n → get d k ≡ some i)

-- `Later s t`: a call may leave `t` where it found `s`.
pub record Core : Type 0 where
  pub permits : List EffectPermit
  pub grants : List ApprovalGrant
  pub epochs : List ℕ
  pub epoch : ℕ
  pub issued : Dict Issued
  pub policies : EffectPolicyRegistry
  pub binding_hash : EffectPolicy → String

abbrev pub core : Gateway → Core
core s = record {
  permits = s.permits;
  grants = s.grants;
  epochs = s.epochs;
  epoch = s.epoch;
  issued = s.issued;
  policies = s.policies;
  binding_hash = s.binding_hash;
}

pub record LaterCore (s t : Core) : Type 0 where
  pub permits : KeepsPermits s.permits t.permits
  pub grants : KeepsGrants s.grants t.grants
  pub epochs : KeepsEpochs s.epochs t.epochs
  pub epoch : t.epoch ≡ s.epoch
  pub issued : KeepsIssued (length s.permits) s.issued t.issued
  pub policies : t.policies ≡ s.policies
  pub binding_hash : t.binding_hash ≡ s.binding_hash

abbrev pub Later : Gateway → Gateway → Type 0
Later s t = LaterCore (core s) (core t)

pub KeepsPermits-refl : (ps : List EffectPermit) → KeepsPermits ps ps
KeepsPermits-refl ps = (omega arith, λ h p e. (p, e, refl, λ _. refl))

pub KeepsEpochs-refl : (es : List ℕ) → KeepsEpochs es es
KeepsEpochs-refl es h e q = (e, q, omega arith)

pub KeepsIssued-refl : (n : ℕ) (d : Dict Issued) → KeepsIssued n d d
KeepsIssued-refl n d u = (u, λ k i e _. e)

pub Later_refl : (s : Core) → LaterCore s s
Later_refl s = record {
  permits = KeepsPermits-refl s.permits;
  grants = λ h g e _. e;
  epochs = KeepsEpochs-refl s.epochs;
  epoch = refl;
  issued = KeepsIssued-refl (length s.permits) s.issued;
  policies = refl;
  binding_hash = refl;
}

-- A change of one part.
module _ (s : Core) where
  pub Later_permits :
      (x : List EffectPermit) → KeepsPermits s.permits x → LaterCore s (record s { permits = x })
  Later_permits x k = record {
    permits = k;
    grants = λ h g e _. e;
    epochs = KeepsEpochs-refl s.epochs;
    epoch = refl;
    issued = KeepsIssued-refl (length s.permits) s.issued;
    policies = refl;
    binding_hash = refl;
  }

  pub Later_grants :
      (x : List ApprovalGrant) → KeepsGrants s.grants x → LaterCore s (record s { grants = x })
  Later_grants x k = record {
    permits = KeepsPermits-refl s.permits;
    grants = k;
    epochs = KeepsEpochs-refl s.epochs;
    epoch = refl;
    issued = KeepsIssued-refl (length s.permits) s.issued;
    policies = refl;
    binding_hash = refl;
  }

  pub Later_epochs : (x : List ℕ) → KeepsEpochs s.epochs x → LaterCore s (record s { epochs = x })
  Later_epochs x k = record {
    permits = KeepsPermits-refl s.permits;
    grants = λ h g e _. e;
    epochs = k;
    epoch = refl;
    issued = KeepsIssued-refl (length s.permits) s.issued;
    policies = refl;
    binding_hash = refl;
  }

  pub Later_issued :
      (x : Dict Issued)
      → KeepsIssued (length s.permits) s.issued x
      → LaterCore s (record s { issued = x })
  Later_issued x k = record {
    permits = KeepsPermits-refl s.permits;
    grants = λ h g e _. e;
    epochs = KeepsEpochs-refl s.epochs;
    epoch = refl;
    issued = k;
    policies = refl;
    binding_hash = refl;
  }

KeepsPermits-trans :
    (ps qs rs : List EffectPermit) → KeepsPermits ps qs → KeepsPermits qs rs → KeepsPermits ps rs
KeepsPermits-trans ps qs rs (m, x) (n, y) = (
  omega arith,
  λ h p e.
      let (q, f, t, c) = x h p e in
      let (r, g, u, d) = y h q f in
      (r, g, cc, λ k. let j : q ≡ p = c k in let l : q.consumed ≡ true = cc in cc (d l)),
)

KeepsEpochs-trans : (es fs gs : List ℕ) → KeepsEpochs es fs → KeepsEpochs fs gs → KeepsEpochs es gs
KeepsEpochs-trans es fs gs x y h e q =
    let (f, p, a) = x h e q in let (g, r, b) = y h f p in (g, r, omega arith)

KeepsIssued-trans :
    (m n : ℕ) (d e f : Dict Issued)
    → m ≤ n
    → KeepsIssued m d e
    → KeepsIssued n e f
    → KeepsIssued m d f
KeepsIssued-trans m n d e f l x y u =
    let (v, g) = x u in let (w, k) = y v in (w, λ a i q b. g a i (k a i q (omega arith)) b)

pub Later_trans : (s t u : Core) → LaterCore s t → LaterCore t u → LaterCore s u
Later_trans s t u a b = record {
  permits = KeepsPermits-trans s.permits t.permits u.permits a.permits b.permits;
  grants = λ h g e i. b.grants h g (a.grants h g e i) i;
  epochs = KeepsEpochs-trans s.epochs t.epochs u.epochs a.epochs b.epochs;
  epoch = cc (a.epoch, b.epoch);
  issued =
      KeepsIssued-trans (length s.permits) (length t.permits) s.issued t.issued u.issued a.permits.0
        a.issued b.issued;
  policies = cc (a.policies, b.policies);
  binding_hash = cc (a.binding_hash, b.binding_hash);
}

-- The same where other code may have changed the policies.
abbrev pub with_policies : EffectPolicyRegistry → Core → Core
with_policies r c = record c { policies = r }

pub Later_with :
    (r : EffectPolicyRegistry) (s t : Core)
    → LaterCore s t
    → LaterCore (with_policies r s) (with_policies r t)
Later_with r s t l = record {
  permits = l.permits;
  grants = l.grants;
  epochs = l.epochs;
  epoch = l.epoch;
  issued = l.issued;
  policies = refl;
  binding_hash = l.binding_hash;
}

abbrev pub Follows : Gateway → Gateway → Type 0
Follows s t = LaterCore (core s) (with_policies s.policies (core t))

pub Later-Follows : (s t : Gateway) → Later s t → Follows s t
Later-Follows s t l = Later_with s.policies (core s) (core t) l

pub Follows-trans : (s t u : Gateway) → Follows s t → Follows t u → Follows s u
Follows-trans s t u a b =
    Later_trans (core s) (with_policies s.policies (core t)) (with_policies s.policies (core u)) a
      (Later_with s.policies (core t) (with_policies t.policies (core u)) b)

-- An action that only moves on.
abbrev pub Keeps : {A : Type 0} → Action A → Type 0
Keeps m = (s : Gateway) → Later s (m s).1

module _ {A B : Type 0} where
  continue :
      (s : Gateway) (x : Result GatewayError A × Gateway) (k : A → Action B)
      → Later s x.1
      → ((a : A) → Keeps (k a))
      → Later s (and_then x k).1
  continue s (ok a, t) k l m = Later_trans (core s) (core t) (core (k a t).1) l (m a t)
  continue s (err e, t) k l m = l

  pub Keeps-bind :
      (m : Action A) (k : A → Action B) → Keeps m → ((a : A) → Keeps (k a)) → Keeps (m >>= k)
  unfolding ◌>>=◌
  Keeps-bind m k l n s = continue s (m s) k (l s) n

  pub Keeps-then : (m : Action A) (k : Action B) → Keeps m → Keeps k → Keeps (m >> k)
  unfolding ◌>>◌
  Keeps-then m k l n s = continue s (m s) (λ _. k) (l s) (λ _. n)

pub Keeps-if :
    {A : Type 0} (b : Bool) (m n : Action A) → Keeps m → Keeps n → Keeps (if b then m else n)
Keeps-if true m n l k = l
Keeps-if false m n l k = k
