-- ===== src/Privacy/Tests.antt =====
-- A consent for credit assessment on bureau data, revoked on day 9, a retention configuration, and
-- the theorems at them.
use ailending_hub.Prelude.{
  List, none, false, pos, ◌≤◌, ◌≡◌, ◌↔◌, refl, true, some, [], ◌∷◌, IsIn, ok,
}
use ailending_hub.Privacy.Consent.{
  ConsentArtifact, credit_assessment, bureau, permits, require, consent_artifact, same_purpose,
  same_category,
}
use ailending_hub.Privacy.Retention.{
  RetentionRule, audit, consent as consent_basis, validate, validate_from, rule_errors,
  known_errors, period_errors,
}
use ailending_hub.Privacy.Consistent.{IsConsistent, validate_iff}
use ailending_hub.Privacy.Permission.{IsBefore, permits_iff}

abbrev consent : ConsentArtifact
consent = record {
  consent_id = "c1";
  customer_token = "tok";
  purposes = credit_assessment ∷ [];
  categories = bureau ∷ [];
  granted_at = 3;
  expires_at = some 20;
  notice_version = "v1";
  revoked_at = some 9;
  source_id = "aa";
}

is_accepted : consent_artifact consent ≡ ok consent
unfolding consent_artifact
is_accepted = refl

permits_day_5 : permits consent credit_assessment bureau 5 ≡ true
unfolding permits same_purpose same_category
permits_day_5 = refl

permits_iff_example :
    ((permits consent credit_assessment bureau 5 ≡ true) ↔ (
      IsIn credit_assessment consent.purposes
      × IsIn bureau consent.categories
      × (consent.granted_at ≤ 5)
      × IsBefore 5 consent.expires_at
      × IsBefore 5 consent.revoked_at))
    × ((require consent credit_assessment bureau 5 ≡ ok tt) ↔ (
        IsIn credit_assessment consent.purposes
        × IsIn bureau consent.categories
        × (consent.granted_at ≤ 5)
        × IsBefore 5 consent.expires_at
        × IsBefore 5 consent.revoked_at))
permits_iff_example = permits_iff consent credit_assessment bureau 5

-- A table of decisions that is kept for ten years, and one whose period is pending.
abbrev retention : List RetentionRule
retention =
    record {
      table = "decisions";
      period_years = some (pos 10);
      basis = audit;
      carries_decisions = true;
      erasable_on_request = false;
      note = "";
    }
    ∷ record {
      table = "consents";
      period_years = none;
      basis = consent_basis;
      carries_decisions = false;
      erasable_on_request = true;
      note = "";
    }
    ∷ []

retention_is_sound : validate retention ≡ []
unfolding validate validate_from rule_errors known_errors period_errors
retention_is_sound = refl

validate_iff_example : (validate retention ≡ []) ↔ IsConsistent [] retention
validate_iff_example = validate_iff retention
