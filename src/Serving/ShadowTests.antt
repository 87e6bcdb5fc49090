-- ===== src/Serving/ShadowTests.antt =====
-- A sample of three applications scored by two paths, a canary of thirty days, and the theorem at the
-- sample. A score, a rate and a fraction are numbers here.
use ailending_hub.Prelude.{
  ℕ, ◌+◌, ◌*◌, ◌/◌, ◌≡◌, ◌↔◌, refl, Bool, true, false, not, ◌==◌, leb, Option, none, some, List, [],
  ◌∷◌, String, if◌then◌else◌, str_eq, Dict, lookup, length, IsIn, Result, ok, err,
}
use ailending_hub.Serving.Parity.{
  Scored, row_key, score_case, discrepancy, paths_case, row_case, compare_row, compare_from,
  compare, parity, passed,
}
use ailending_hub.Serving.Agreement.{Agrees, compare_sound}
use ailending_hub.Serving.Ladder.{may_advance, canary_status}

abbrev differ : ℕ → ℕ → Bool
differ a b = not (a == b)

abbrev repr : Dict String → String
repr row = "row"

abbrev application : String → Dict String
application name = ("application_id", name) ∷ []

abbrev score_of : ℕ → Scored ℕ
score_of n = record { outcome = some "refer"; score = some n }

-- The batch path fails on the third application.
abbrev batch : Dict String → Result String (Option (Scored ℕ))
batch row =
    if str_eq (row_key repr row) "a3" then err "no such customer" else ok (some (score_of 7))

-- The serving path has another score for the second.
abbrev serving : Dict String → Result String (Option (Scored ℕ))
serving row = ok (some (score_of (if str_eq (row_key repr row) "a2" then 8 else 7)))

abbrev sample : List (Dict String)
sample = application "a1" ∷ application "a2" ∷ application "a3" ∷ []

one_agrees : (compare differ repr batch serving sample).agreed ≡ 1
unfolding compare compare_from compare_row row_case paths_case discrepancy score_case row_key lookup
one_agrees = refl

compare_sound_example :
    let report = compare differ repr batch serving sample in
    (report.compared ≡ length sample)
    × (report.agreed + length report.cases ≡ length sample)
    × ((report.cases ≡ [])
        ↔ ((row : Dict String) → IsIn row sample → Agrees differ (batch row) (serving row)))
    × (sample ≡ []
        → (parity (λ a b. a * 1000 / b) report ≡ none)
          × (passed (λ a b. a * 1000 / b) (leb 999) report ≡ false))
compare_sound_example =
    compare_sound differ repr batch serving (λ a b. a * 1000 / b) (leb 999) sample

canary_advances : may_advance {Fraction = ℕ} (canary_status (some 10) 40 (some 5) 29 []) ≡ true
unfolding may_advance canary_status
canary_advances = refl
