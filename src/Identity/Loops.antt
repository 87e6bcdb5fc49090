-- ===== src/Identity/Loops.antt =====
-- The spine that the three loops leave: its loans and their applications, as tests over the rows.
use ailending_hub.Prelude.{
  suc, ◌≡◌, inl, inr, refl, ap, ◌∙◌, Bool, false, ◌&&◌, ◌||◌, Option, none, some, List, [], ◌∷◌,
  String, arith, any, lookup, is_some, contains, foldl, Bool-cases,
}
use ailending_hub.Identity.Keys.{Entity, Key, usable, rejected}
use ailending_hub.Identity.Spine.{
  Row, cbs, los, collections, key, is_active, SpineRecord, seen_in, set_application, add_case,
}
use ailending_hub.Identity.Build.{
  Building, apply_to, resolve_case, open_loan, cbs_row, los_row, collections_row, join_systems,
  build_spine, new_audit,
}
use ailending_hub.Identity.Joined.{
  is_key, is_usable, has_application, contains-add_loan, has_application-add_loan,
  contains-apply_to, has_application-apply_to, resolve_case-apply_to, application-seen_in,
  application-set_application, application-add_case,
}
use Prim.Native.Char.{Char}

-- The row is an active loan `v` of the core system.
abbrev pub opens : (Char → String) → (Char → String) → String → Row → Bool
opens upper_beyond lower_beyond v row =
    is_active lower_beyond row && is_key v (key upper_beyond row cbs Entity.loan)

-- The row is an application with a usable key for the loan `v`.
abbrev pub applies : (Char → String) → String → Row → Bool
applies upper_beyond v row =
    is_key v (key upper_beyond row los Entity.loan)
    && is_usable (key upper_beyond row los Entity.application)

contains-open_loan :
    (v : String) (c o : Option Key) (b : Building)
    → contains v (open_loan c o b).spine ≡ (contains v b.spine || is_key v o)
unfolding open_loan
contains-open_loan v c none b = ground arith
contains-open_loan v c (some (rejected r)) b = ground arith
contains-open_loan v c (some (usable k)) b = contains-add_loan v c k b

has_application-open_loan :
    (v : String) (c o : Option Key) (b : Building)
    → has_application v (open_loan c o b).spine ≡ has_application v b.spine
unfolding open_loan
has_application-open_loan v c none b = refl
has_application-open_loan v c (some (rejected r)) b = refl
has_application-open_loan v c (some (usable k)) b = has_application-add_loan v c k b

or_false : (b : Bool) → b ≡ (b || false)
or_false b = ground arith

module _ (upper_beyond lower_beyond : Char → String) where
  one_cbs_row :
      (v : String) (b : Building) (row : Row)
      → let after = (cbs_row upper_beyond lower_beyond b row).spine in
        (contains v after ≡ (contains v b.spine || opens upper_beyond lower_beyond v row))
        × (has_application v after ≡ has_application v b.spine)
  unfolding cbs_row
  one_cbs_row v b row =
      let customer_key = key upper_beyond row cbs Entity.customer in
      let loan_key = key upper_beyond row cbs Entity.loan in
      elim (Bool-cases (is_active lower_beyond row)) [
        | inl t ↦
            rw (cbs_row, t)
              (
                contains-open_loan v customer_key loan_key b,
                has_application-open_loan v customer_key loan_key b,
              )
        | inr f ↦ rw (cbs_row, f) (or_false (contains v b.spine), refl)
      ]

  pub after_cbs :
      (v : String) (b : Building) (rows : List Row)
      → let after = (foldl (cbs_row upper_beyond lower_beyond) b rows).spine in
        (contains v after ≡ (contains v b.spine || any (opens upper_beyond lower_beyond v) rows))
        × (has_application v after ≡ has_application v b.spine)
  after_cbs v b [] = (or_false (contains v b.spine), refl)
  after_cbs v b (row ∷ rows) =
      let (c, a) = after_cbs v (cbs_row upper_beyond lower_beyond b row) rows in
      let (c', a') = one_cbs_row v b row in (ground arith, a ∙ a')

  pub after_los :
      (v : String) (b : Building) (rows : List Row)
      → let after = (foldl (los_row upper_beyond lower_beyond) b rows).spine in
        (contains v after ≡ contains v b.spine)
        × (has_application v after ≡ (
            has_application v b.spine || contains v b.spine && any (applies upper_beyond v) rows))
  unfolding los_row
  after_los v b [] = (refl, ground arith)
  after_los v b (row ∷ rows) =
      let customer_key = key upper_beyond row los Entity.customer in
      let loan_key = key upper_beyond row los Entity.loan in
      let application_key = key upper_beyond row los Entity.application in
      let change_to : SpineRecord → SpineRecord =
        λ r. seen_in los customer_key (set_application application_key r) in
      let (c, a) = after_los v (apply_to change_to loan_key b) rows in
      let c' = contains-apply_to v change_to loan_key b in
      let a' =
        has_application-apply_to v change_to (is_usable application_key)
          (λ r.
            ap is_some (application-seen_in los customer_key (set_application application_key r))
            ∙ application-set_application application_key r)
          loan_key b in
      (c ∙ c', ground arith)

  pub after_collections :
      (v : String) (b : Building) (rows : List Row)
      → let after = (foldl (collections_row upper_beyond lower_beyond) b rows).spine in
        (contains v after ≡ contains v b.spine)
        × (has_application v after ≡ has_application v b.spine)
  unfolding collections_row
  after_collections v b [] = (refl, refl)
  after_collections v b (row ∷ rows) =
      let customer_key = key upper_beyond row collections Entity.customer in
      let case_key = key upper_beyond row collections Entity.case_entity in
      let loan_key = key upper_beyond row collections Entity.loan in
      let counted : Building = record b {
        audit = record b.audit { collections_cases = suc b.audit.collections_cases };
      } in
      let change_to : SpineRecord → SpineRecord =
        λ r. seen_in collections customer_key (add_case case_key r) in
      let (c, a) = after_collections v (resolve_case change_to loan_key counted) rows in
      let same = resolve_case-apply_to change_to loan_key counted in
      let c' = contains-apply_to v change_to loan_key counted in
      let a' =
        has_application-apply_to v change_to false
          (λ r.
            ap is_some (
              application-seen_in collections customer_key (add_case case_key r)
              ∙ application-add_case case_key r)
            ∙ or_false (is_some r.application))
          loan_key counted in
      (c ∙ (ap (contains v) same ∙ c'), a ∙ (ap (has_application v) same ∙ ground arith))

  -- The spine has a record of a loan exactly if an active row of the core system has its key, and that
  -- record has an application exactly if, moreover, an application whose own key is usable has the
  -- loan's key.
  pub build_spine_iff :
      (track : String) (cbs_rows los_rows collections_rows : List Row) (v : String)
      → let spine =
          (build_spine upper_beyond lower_beyond track cbs_rows los_rows collections_rows).spine in
        (contains v spine ≡ any (opens upper_beyond lower_beyond v) cbs_rows)
        × (has_application v spine ≡ (
            any (opens upper_beyond lower_beyond v) cbs_rows
            && any (applies upper_beyond v) los_rows))
  unfolding build_spine join_systems lookup
  build_spine_iff track cbs_rows los_rows collections_rows v =
      let start : Building = record { spine = []; audit = new_audit track } in
      let opened : Building = foldl (cbs_row upper_beyond lower_beyond) start cbs_rows in
      let applied : Building = foldl (los_row upper_beyond lower_beyond) opened los_rows in
      let (c, a) = after_cbs v start cbs_rows in
      let (c', a') = after_los v opened los_rows in
      let (c'', a'') = after_collections v applied collections_rows in (ground arith, ground arith)
