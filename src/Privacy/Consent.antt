-- ===== src/Privacy/Consent.antt =====
-- privacy/consent.py: ConsentArtifact, permits and require. An instant is a number of microseconds;
-- a frozenset is the list of its members.
use ailending_hub.Prelude.{
  ℕ, Bool, true, false, not, ◌||◌, Option, none, some, List, String, ltb, leb, any, is_nil,
  is_empty, if◌then◌else◌, Result, ok, ◌>>◌, raise_if,
}

pub data Purpose : Type 0 where
  credit_assessment fraud_prevention model_training portfolio_monitoring : Purpose

pub data DataCategory : Type 0 where
  bank_statements bureau telco location device : DataCategory

unfoldable pub same_purpose : Purpose → Purpose → Bool
same_purpose credit_assessment credit_assessment = true
same_purpose fraud_prevention fraud_prevention = true
same_purpose model_training model_training = true
same_purpose portfolio_monitoring portfolio_monitoring = true
same_purpose _ _ = false

unfoldable pub same_category : DataCategory → DataCategory → Bool
same_category bank_statements bank_statements = true
same_category bureau bureau = true
same_category telco telco = true
same_category location location = true
same_category device device = true
same_category _ _ = false

pub data ConsentError : Type 0 where
  no_purpose no_category no_notice_version empty_interval revoked_before_granted : ConsentError
  not_permitted :
      (consent_id : String) (purpose : Purpose) (category : DataCategory) (at : ℕ) → ConsentError

pub record ConsentArtifact : Type 0 where
  pub consent_id : String
  pub customer_token : String
  pub purposes : List Purpose
  pub categories : List DataCategory
  pub granted_at : ℕ
  pub expires_at : Option ℕ
  pub notice_version : String
  pub revoked_at : Option ℕ
  pub source_id : String

-- `limit is not None and limit <= t`
abbrev pub has_come : Option ℕ → ℕ → Bool
has_come none t = false
has_come (some limit) t = leb limit t

-- `limit is not None and limit < t`
abbrev pub has_passed : Option ℕ → ℕ → Bool
has_passed none t = false
has_passed (some limit) t = ltb limit t

-- `ConsentArtifact.__post_init__`
unfoldable pub consent_artifact : ConsentArtifact → Result ConsentError ConsentArtifact
consent_artifact c = do
  raise_if (is_nil c.purposes) no_purpose
  raise_if (is_nil c.categories) no_category
  raise_if (is_empty c.notice_version) no_notice_version
  raise_if (has_come c.expires_at c.granted_at) empty_interval
  raise_if (has_passed c.revoked_at c.granted_at) revoked_before_granted
  ok c

unfoldable pub permits : ConsentArtifact → Purpose → DataCategory → ℕ → Bool
permits c purpose category t =
    if not (any (same_purpose purpose) c.purposes)
      || not (any (same_category category) c.categories)
    then false
    else if ltb t c.granted_at
    then false
    else if has_come c.expires_at t
    then false
    else if has_come c.revoked_at t
    then false
    else true

unfoldable pub require : ConsentArtifact → Purpose → DataCategory → ℕ → Result ConsentError Unit
unfolding permits
require c purpose category t =
    raise_if (not (permits c purpose category t)) (not_permitted c.consent_id purpose category t)
