-- ===== src/Portfolio/Tests.antt =====
-- Accounts under a policy whose threshold is a doubling, and the theorem at one of them. A float is a
-- number here.
use ailending_hub.Prelude.{ℕ, ◌/◌, ◌≡◌, ◌↔◌, refl, true, false, none, some, List, [], ◌∷◌, leb}
use ailending_hub.Portfolio.Staging.{
  one, two, three, StagingPolicy, StagingInput, classify, is_impaired, stage_two_triggers, reaches,
  arm_of, sicr_arm, pd_ratio,
}
use ailending_hub.Portfolio.Determined.{
  stage_of, IsImpaired, IsBackstopped, HasTrigger, HasRatio, classify_iff,
}
use ailending_hub.Definitions.Labels.{is_default, is_true}

abbrev policy : StagingPolicy ℕ
policy = record { sicr_threshold = some 2; backstop_days = 30; ews_enabled = false }

abbrev doubled : StagingInput ℕ
doubled = record {
  account_id = "a1";
  snapshot = "2026-01";
  dpd = some 3;
  written_off = none;
  lifetime_pd = some 40;
  lifetime_pd_at_origination = some 10;
  ews_flag = true;
}

-- The back book has no PD at origination.
abbrev back_book : StagingInput ℕ
back_book = record doubled { account_id = "a2"; lifetime_pd_at_origination = none }

run : Unit {0}
unfolding classify is_impaired stage_two_triggers reaches arm_of sicr_arm pd_ratio is_default
    is_true
run = tt

doubled_stage : stage_of (classify leb ◌/◌ 0 policy doubled) ≡ some two
unfolding run
doubled_stage = refl

back_book_stage : stage_of (classify leb ◌/◌ 0 policy back_book) ≡ none
unfolding run
back_book_stage = refl

classify_iff_example :
    let s = stage_of (classify leb ◌/◌ 0 policy back_book) in
    let flagged = (policy.ews_enabled ≡ true) × (back_book.ews_flag ≡ true) in
    ((s ≡ some three) ↔ IsImpaired leb ◌/◌ 0 back_book)
    × ((s ≡ some two)
        ↔ ((¬ IsImpaired leb ◌/◌ 0 back_book) × HasTrigger leb ◌/◌ 0 policy back_book))
    × ((s ≡ some one) ↔ (
        (¬ IsImpaired leb ◌/◌ 0 back_book)
        × (¬ IsBackstopped policy.backstop_days back_book.dpd)
        × (¬ flagged)
        × HasRatio leb ◌/◌ 0 false policy back_book))
    × ((s ≡ none) ↔ (
        (¬ IsImpaired leb ◌/◌ 0 back_book)
        × (¬ HasTrigger leb ◌/◌ 0 policy back_book)
        × (¬ HasRatio leb ◌/◌ 0 false policy back_book)))
classify_iff_example = classify_iff leb ◌/◌ 0 policy back_book

abbrev book : List (StagingInput ℕ)
book = doubled ∷ back_book ∷ []
