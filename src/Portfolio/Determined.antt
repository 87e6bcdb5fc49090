-- ===== src/Portfolio/Determined.antt =====
-- Exactly when an account is given which stage, and that a population loses none.
use ailending_hub.Prelude.{
  ℕ, ◌+◌, ◌≤◌, ◌≡◌, ◌⊎◌, ◌↔◌, Bool, true, false, not, ◌&&◌, Option, none, some, List, [], ◌∷◌, ◌++◌,
  arith, &&_iff, if◌then◌else◌, is_nil, is_nil-append, is_nil-reason_if, length, length-append,
  count_if,
}
use ailending_hub.Definitions.Labels.{is_default, is_true}
use ailending_hub.Portfolio.Staging.{
  Stage, one, two, three, StagingPolicy, StagingInput, Classified, decided, undeterminable, Arm,
  fired, clear, unevaluable, or_zero, reaches, pd_ratio, sicr_arm, arm_of, is_impaired,
  stage_two_triggers, classify, StagingRun, total_of, is_stage, stage_count, collect, stage_from,
  run_staging, has_fired,
}

abbrev pub stage_of : Classified → Option Stage
stage_of (decided d) = some d.stage
stage_of (undeterminable u) = none

-- The account is past due as far as the backstop.
abbrev pub IsBackstopped : ℕ → Option ℕ → Type 0
IsBackstopped backstop none = ⊥
IsBackstopped backstop (some n) = backstop ≤ n

abbrev pub is_at : Stage → Option Stage → Bool
is_at s none = false
is_at s (some t) = is_stage s t

abbrev pub is_undetermined : Option Stage → Bool
is_undetermined none = true
is_undetermined (some t) = false

count_if-append_one :
    {A : Type 0} (q : A → Bool) (xs : List A) (x : A)
    → count_if q (xs ++ x ∷ []) ≡ count_if q xs + (if q x then 1 else 0)
count_if-append_one q [] x = omega arith
count_if-append_one q (y ∷ xs) x = omega (arith, count_if-append_one q xs x)

collect-counts :
    (c : Classified) (r : StagingRun)
    → ((s : Stage)
        → stage_count s (collect c r) ≡ stage_count s r + (if is_at s (stage_of c) then 1 else 0))
      × (length (collect c r).undeterminable_items
          ≡ length r.undeterminable_items + (if is_undetermined (stage_of c) then 1 else 0))
      × (total_of (collect c r) ≡ total_of r + 1)
unfolding collect stage_count total_of
collect-counts (decided d) r = (
  (λ s. count_if-append_one (λ d. is_stage s d.stage) r.decisions d),
  omega arith,
  omega (arith, length-append r.decisions (d ∷ [])),
)
collect-counts (undeterminable u) r = (
  (λ s. omega arith),
  omega (arith, length-append r.undeterminable_items (u ∷ [])),
  omega (arith, length-append r.undeterminable_items (u ∷ [])),
)

-- The stage that the tests of the arms give.
unfoldable pub staged : Bool → Bool → Bool → Arm → Option Stage
staged true b e a = some three
staged false true e a = some two
staged false false true a = some two
staged false false false fired = some two
staged false false false clear = some one
staged false false false unevaluable = none

module _ (I B E R S : Type 0) where
  staged_iff :
      (m b e : Bool) (a : Arm)
      → (m ≡ true) ↔ I
      → (b ≡ true) ↔ B
      → (e ≡ true) ↔ E
      → (a ≡ fired) ↔ R
      → (a ≡ clear) ↔ S
      → ((staged m b e a ≡ some three) ↔ I)
        × ((staged m b e a ≡ some two) ↔ ((¬ I) × (B ⊎ E ⊎ R)))
        × ((staged m b e a ≡ some one) ↔ ((¬ I) × (¬ B) × (¬ E) × S))
        × ((staged m b e a ≡ none) ↔ ((¬ I) × (¬ (B ⊎ E ⊎ R)) × (¬ S)))
  unfolding staged
  staged_iff m b e a (i, i') (j, j') (k, k') (r, r') (s, s') = (
    ((λ h. ground arith), λ h. ground arith),
    ((λ h. ground arith), λ h. ground arith),
    ((λ h. ground arith), λ h. ground arith),
    ((λ h. ground arith), λ h. ground arith),
  )

module _ {F : Type 0} (le : F → F → Bool) (divide : F → F → F) (nought : F) where
  -- Threshold and both lifetime PDs are known, the one at origination is positive, and the ratio
  -- exceeds the threshold or not, as the flag says.
  abbrev pub RatioIs : Bool → Option F → Option F → Option F → Type 0
  RatioIs exceeds (some t) (some now) (some origin) =
      (le origin nought ≡ false) × (le (divide now origin) t ≡ not exceeds)
  RatioIs exceeds _ _ _ = ⊥

  abbrev pub HasRatio : Bool → StagingPolicy F → StagingInput F → Type 0
  HasRatio exceeds p i = RatioIs exceeds p.sicr_threshold i.lifetime_pd i.lifetime_pd_at_origination

  abbrev pub IsImpaired : StagingInput F → Type 0
  IsImpaired i = (90 ≤ or_zero i.dpd) ⊎ (i.written_off ≡ some true)

  -- An arm of stage 2 fires.
  abbrev pub HasTrigger : StagingPolicy F → StagingInput F → Type 0
  HasTrigger p i =
      IsBackstopped p.backstop_days i.dpd
      ⊎ (p.ews_enabled ≡ true) × (i.ews_flag ≡ true)
      ⊎ HasRatio true p i

  is_impaired_iff : (i : StagingInput F) → (is_impaired le divide nought i ≡ true) ↔ IsImpaired i
  unfolding is_impaired is_default is_true
  is_impaired_iff i = ((λ h. ground arith), λ h. ground arith)

  reaches_iff : (o : Option ℕ) (n : ℕ) → (reaches o n ≡ true) ↔ IsBackstopped n o
  unfolding reaches
  reaches_iff none n = ((λ h. cc), λ h. absurd h)
  reaches_iff (some m) n = ((λ h. ground arith), λ h. ground arith)

  sicr_arm_iff :
      (t now origin : Option F)
      → let a = sicr_arm le divide nought t (pd_ratio le divide nought now origin) in
        ((a ≡ fired) ↔ RatioIs true t now origin) × ((a ≡ clear) ↔ RatioIs false t now origin)
  unfolding sicr_arm pd_ratio
  sicr_arm_iff none now origin =
      (((λ h. ground arith), λ h. absurd h), ((λ h. ground arith), λ h. absurd h))
  sicr_arm_iff (some t) none origin =
      (((λ h. ground arith), λ h. absurd h), ((λ h. ground arith), λ h. absurd h))
  sicr_arm_iff (some t) (some now) none =
      (((λ h. ground arith), λ h. absurd h), ((λ h. ground arith), λ h. absurd h))
  sicr_arm_iff (some t) (some now) (some origin) =
      (((λ h. ground arith), λ h. ground arith), ((λ h. ground arith), λ h. ground arith))

  triggers-nil :
      (p : StagingPolicy F) (i : StagingInput F)
      → is_nil (stage_two_triggers le divide nought p i) ≡ (
          not (reaches i.dpd p.backstop_days)
          && (not (p.ews_enabled && i.ews_flag) && not (has_fired (arm_of le divide nought p i))))
  unfolding stage_two_triggers
  triggers-nil p i = simp (is_nil-append, is_nil-reason_if)

  classify-staged :
      (p : StagingPolicy F) (i : StagingInput F)
      → stage_of (classify le divide nought p i)
        ≡ staged
            (is_impaired le divide nought i)
            (reaches i.dpd p.backstop_days)
            (p.ews_enabled && i.ews_flag)
            (arm_of le divide nought p i)
  unfolding classify staged
  classify-staged p i = ground (arith, triggers-nil p i)

  -- An account is in stage 3 exactly if it is impaired, in stage 2 exactly if it is not and an arm of
  -- stage 2 fires, and in stage 1 exactly if it is not impaired, neither the backstop nor the red flag
  -- fires and the lifetime PD ratio was evaluated and does not exceed the threshold. It is left
  -- undetermined exactly if nothing fires and the ratio could not be evaluated, and never in stage 1
  -- then.
  pub classify_iff :
      (p : StagingPolicy F) (i : StagingInput F)
      → let s = stage_of (classify le divide nought p i) in
        let flagged = (p.ews_enabled ≡ true) × (i.ews_flag ≡ true) in
        ((s ≡ some three) ↔ IsImpaired i)
        × ((s ≡ some two) ↔ ((¬ IsImpaired i) × HasTrigger p i))
        × ((s ≡ some one) ↔ (
            (¬ IsImpaired i)
            × (¬ IsBackstopped p.backstop_days i.dpd)
            × (¬ flagged)
            × HasRatio false p i))
        × ((s ≡ none) ↔ ((¬ IsImpaired i) × (¬ HasTrigger p i) × (¬ HasRatio false p i)))
  unfolding arm_of
  classify_iff p i =
      let (fires, clears) =
        sicr_arm_iff p.sicr_threshold i.lifetime_pd i.lifetime_pd_at_origination in
      rw (classify-staged p i) (
        staged_iff (IsImpaired i) (IsBackstopped p.backstop_days i.dpd)
          ((p.ews_enabled ≡ true) × (i.ews_flag ≡ true)) (HasRatio true p i) (HasRatio false p i)
          (is_impaired le divide nought i) (reaches i.dpd p.backstop_days)
          (p.ews_enabled && i.ews_flag) (arm_of le divide nought p i) (is_impaired_iff i)
          (reaches_iff i.dpd p.backstop_days) (&&_iff p.ews_enabled i.ews_flag) fires clears)

  stage_from-counts :
      (p : StagingPolicy F) (items : List (StagingInput F)) (r : StagingRun)
      → let t = stage_from le divide nought p items r in
        ((s : Stage)
          → stage_count s t
            ≡ stage_count s r
              + count_if (λ i. is_at s (stage_of (classify le divide nought p i))) items)
        × (length t.undeterminable_items
            ≡ length r.undeterminable_items
              + count_if (λ i. is_undetermined (stage_of (classify le divide nought p i))) items)
        × (total_of t ≡ total_of r + length items)
  unfolding stage_from
  stage_from-counts p [] r = ((λ s. omega arith), omega arith, omega arith)
  stage_from-counts p (i ∷ is) r =
      let c = classify le divide nought p i in
      let (stages, rest, total) = collect-counts c r in
      let (stages', rest', total') = stage_from-counts p is (collect c r) in
      (
        (λ s. omega (arith, stages s, stages' s)),
        omega (arith, rest, rest'),
        omega (arith, total, total'),
      )

  -- A staging run loses no account: as many decisions and undeterminable accounts as there are
  -- accounts; and the count of each stage is the number of accounts that it classifies so, as is that
  -- of the undeterminable.
  pub run_staging_counts :
      (p : StagingPolicy F) (items : List (StagingInput F))
      → let t = run_staging le divide nought p items in
        (total_of t ≡ length items)
        × ((s : Stage)
            → stage_count s t
              ≡ count_if (λ i. is_at s (stage_of (classify le divide nought p i))) items)
        × (length t.undeterminable_items
            ≡ count_if (λ i. is_undetermined (stage_of (classify le divide nought p i))) items)
  unfolding run_staging stage_count total_of
  run_staging_counts p items =
      let r : StagingRun = record { decisions = []; undeterminable_items = [] } in
      let (stages, rest, total) = stage_from-counts p items r in
      (omega (arith, total), (λ s. omega (arith, stages s)), omega (arith, rest))
