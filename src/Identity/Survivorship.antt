-- ===== src/Identity/Survivorship.antt =====
-- identity/survivorship.py: which source's value survives.
use ailending_hub.Prelude.{
  ◌+◌, ◌≡◌, inl, inr, refl, ap, subst, sym, ◌∙◌, Bool, true, not, Option, none, some, List, [], ◌∷◌,
  String, arith, map, filter, length, is_some, Dict, lookup, IsIn, IsIn-filter, Option-cases,
}
use ailending_hub.Identity.Keys.{Entity}

-- `SYSTEM_OF_RECORD`, which has every entity.
unfoldable pub system_of_record : Entity → String
system_of_record e = elim e [
  | Entity.customer ↦ "cbs"
  | Entity.account ↦ "cbs"
  | Entity.loan ↦ "cbs"
  | Entity.application ↦ "los"
  | Entity.case_entity ↦ "collections"
]

-- Sources that disagree: a value for each source.
pub record Conflict (V : Type 0) : Type 0 where
  pub entity : Entity
  pub conflict_key : String
  pub attribute : String
  pub values : Dict V

-- The text of the rule names the system of record, and says whether it supplied the value.
pub data SurvivorshipRule : Type 0 where
  by_system_of_record : Entity → String → SurvivorshipRule
  exception_required : String → SurvivorshipRule

pub record Resolution (V : Type 0) : Type 0 where
  pub conflict : Conflict V
  pub winner : Option String
  pub value : Option V
  pub rule : SurvivorshipRule

abbrev pub is_resolved : {V : Type 0} → Resolution V → Bool
is_resolved r = is_some r.winner

unfoldable pub resolve : {V : Type 0} → Conflict V → Resolution V
unfolding system_of_record
resolve conflict =
    let sor = system_of_record conflict.entity in
    elim (lookup sor conflict.values) [
      | some v ↦ record {
        conflict = conflict;
        winner = some sor;
        value = some v;
        rule = by_system_of_record conflict.entity sor;
      }
      | none ↦ record {
        conflict = conflict;
        winner = none;
        value = none;
        rule = exception_required sor;
      }
    ]

-- The resolved and the unresolved.
unfoldable pub resolve_all :
    {V : Type 0} → List (Conflict V) → List (Resolution V) × List (Resolution V)
unfolding resolve
resolve_all conflicts =
    let resolutions = map resolve conflicts in
    (filter is_resolved resolutions, filter (λ r. not (is_resolved r)) resolutions)

-- The value that survived is the one of the system of record, or there is none and it gave none.
abbrev pub Survives : {V : Type 0} → Resolution V → Type 0
Survives r =
    (r.value ≡ lookup (system_of_record r.conflict.entity) r.conflict.values)
    × (is_resolved r ≡ is_some r.value)
    × (is_resolved r ≡ true → r.winner ≡ some (system_of_record r.conflict.entity))

resolve-Survives : {V : Type 0} (c : Conflict V) → Survives (resolve c) × ((resolve c).conflict ≡ c)
unfolding resolve
resolve-Survives c = elim (Option-cases (lookup (system_of_record c.entity) c.values)) [
  | inl n ↦ rw (resolve, n) ((sym n, refl, λ h. absurd (ground arith)), refl)
  | inr (v, e) ↦ rw (resolve, e) ((sym e, refl, λ h. refl), refl)
]

resolve-IsIn :
    {V : Type 0} (r : Resolution V) (cs : List (Conflict V))
    → IsIn r (map resolve cs)
    → Survives r × IsIn r.conflict cs
resolve-IsIn r [] m = absurd m
resolve-IsIn r (c ∷ cs) (inl e) =
    let (s, same) = resolve-Survives c in
    (subst Survives e s, inl (sym same ∙ ap (λ x. x.conflict) e))
resolve-IsIn r (c ∷ cs) (inr m) = let (s, k) = resolve-IsIn r cs m in (s, inr k)

filter_splits :
    {A : Type 0} (p : A → Bool) (xs : List A)
    → length (filter p xs) + length (filter (λ x. not (p x)) xs) ≡ length xs
filter_splits p [] = omega arith
filter_splits p (x ∷ xs) = let rest = filter_splits p xs in ground arith

length-map : {A B : Type 0} (f : A → B) (xs : List A) → length (map f xs) ≡ length xs
length-map f [] = refl
length-map f (x ∷ xs) = let rest = length-map f xs in omega arith

-- Every conflict is resolved or unresolved, once. A resolution is of one of the conflicts, and it is
-- among the resolved only with the value that the entity's system of record supplied, and among the
-- unresolved only where that system supplied none, whatever the other sources have.
pub resolve_all_sound :
    {V : Type 0} (conflicts : List (Conflict V))
    → let (done, open_ones) = resolve_all conflicts in
      (length done + length open_ones ≡ length conflicts)
      × ((r : Resolution V)
          → IsIn r done
          → IsIn r.conflict conflicts
            × (is_some r.value ≡ true)
            × (r.value ≡ lookup (system_of_record r.conflict.entity) r.conflict.values)
            × (r.winner ≡ some (system_of_record r.conflict.entity)))
      × ((r : Resolution V)
          → IsIn r open_ones
          → IsIn r.conflict conflicts
            × (lookup (system_of_record r.conflict.entity) r.conflict.values ≡ none)
            × (r.value ≡ none))
unfolding resolve_all
resolve_all_sound conflicts =
    let resolutions = map resolve conflicts in
    let split = filter_splits is_resolved resolutions in
    let whole = length-map resolve conflicts in
    (
      split ∙ whole,
      (λ r m.
          let (here, t) = IsIn-filter is_resolved r resolutions m in
          let ((v, agree, w), from) = resolve-IsIn r conflicts here in
          (from, sym agree ∙ t, v, w t)),
      λ r m.
          let (here, t) = IsIn-filter (λ x. not (is_resolved x)) r resolutions m in
          let ((v, agree, w), from) = resolve-IsIn r conflicts here in
          let nothing : r.value ≡ none = ground arith in (from, sym v ∙ nothing, nothing),
    )
