-- ===== src/Risk.antt =====
-- `RiskTier` and `RiskMeta` of src/webwire/safety/models.py.
use wire_agent.Base.{String, Bool, true, false, ◌≡◌, ◌↔◌, ◌⊎◌, ◌&&◌, List, arith, if◌then◌else◌}

pub data RiskTier : Type 0 where
  private_reversible public_reversible_engagement : RiskTier
  public_amplifying_reversible public_content_irreversible : RiskTier

unfoldable pub RiskTier-discrete : Discrete RiskTier
RiskTier-discrete = hlevel

pub data Visibility : Type 0 where
  private semi_public public : Visibility

pub data Reversibility : Type 0 where
  reversible compensatable irreversible : Reversibility

pub data Amplification : Type 0 where
  quiet engagement_signal broadcast : Amplification

pub record RiskMeta : Type 0 where
  pub visibility : Visibility
  pub reversibility : Reversibility
  pub amplification : Amplification
  pub content_creation : Bool
  pub residual_side_effects : List String
  pub target_types : List String

abbrev is_public : Visibility → Bool
is_public public = true
is_public _ = false

abbrev is_private : Visibility → Bool
is_private private = true
is_private _ = false

abbrev is_reversible : Reversibility → Bool
is_reversible reversible = true
is_reversible _ = false

abbrev is_broadcast : Amplification → Bool
is_broadcast broadcast = true
is_broadcast _ = false

abbrev is_signal : Amplification → Bool
is_signal engagement_signal = true
is_signal _ = false

unfoldable pub derive_tier : RiskMeta → RiskTier
derive_tier m =
    if m.content_creation
    then public_content_irreversible
    else if is_broadcast m.amplification
    then public_amplifying_reversible
    else if is_public m.visibility && is_signal m.amplification
    then public_reversible_engagement
    else if is_private m.visibility && is_reversible m.reversibility
    then private_reversible
    else public_content_irreversible

-- The mildest tier is derived only of private, reversible writes that create no content and are not
-- broadcast, and of all of those.
pub private_reversible_iff :
    (m : RiskMeta)
    → (derive_tier m ≡ private_reversible) ↔ (
        (m.content_creation ≡ false)
        × (m.visibility ≡ private)
        × (m.reversibility ≡ reversible)
        × ((m.amplification ≡ quiet) ⊎ (m.amplification ≡ engagement_signal)))
unfolding derive_tier
private_reversible_iff m = ground arith
