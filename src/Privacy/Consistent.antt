-- ===== src/Privacy/Consistent.antt =====
-- Exactly when a retention configuration has no errors.
use ailending_hub.Prelude.{
  ◌≡◌, ◌↔◌, refl, inl, inr, true, false, not, ◌&&◌, Option, none, some, List, [], ◌∷◌, String,
  arith, is_nil, is_nil-append, is_nil-reason_if, member, member_iff, IsIn, Bool-cases, ℤ, pos,
  ◌≤ℤ◌,
}
use ailending_hub.Privacy.Retention.{
  regulatory, RetentionRule, period_errors, known_errors, rule_errors, validate_from, validate,
}

-- The period is positive, at least eight years where the table carries decisions, and no statutory
-- duty can be erased on request. A period that is pending is not judged.
abbrev pub IsSoundFor : RetentionRule → Option ℤ → Type 0
IsSoundFor rule none = Unit
IsSoundFor rule (some period) =
    (pos 1 ≤ℤ period)
    × (rule.carries_decisions ≡ true → pos 8 ≤ℤ period)
    × (rule.basis ≡ regulatory → rule.erasable_on_request ≡ false)

-- No table comes twice, nor is it among those seen, and every rule is sound.
abbrev pub IsConsistent : List String → List RetentionRule → Type 0
IsConsistent seen [] = Unit
IsConsistent seen (rule ∷ rules) =
    (IsIn rule.table seen → ⊥)
    × IsSoundFor rule rule.period_years
    × IsConsistent (rule.table ∷ seen) rules

is_nil_iff : {A : Type 0} (xs : List A) → (is_nil xs ≡ true) ↔ (xs ≡ [])
is_nil_iff [] = ((λ h. refl), λ h. refl)
is_nil_iff (x ∷ xs) = ((λ h. ground arith), λ h. ground arith)

known_errors_iff :
    (rule : RetentionRule) (o : Option ℤ)
    → (is_nil (known_errors rule o) ≡ true) ↔ IsSoundFor rule o
unfolding known_errors period_errors
known_errors_iff rule none = ((λ h. tt), λ h. refl)
known_errors_iff rule (some period) =
    ((λ h. (ground arith, (λ c. ground arith), λ b. ground arith)), λ (p, d, e). ground arith)

rule_errors_iff :
    (seen : List String) (rule : RetentionRule)
    → (is_nil (rule_errors seen rule) ≡ true)
      ↔ ((IsIn rule.table seen → ⊥) × IsSoundFor rule rule.period_years)
unfolding rule_errors
rule_errors_iff seen rule =
    let (there, back) = member_iff rule.table seen in
    let (sound, sound') = known_errors_iff rule rule.period_years in
    let split : is_nil (rule_errors seen rule)
        ≡ (not (member rule.table seen) && is_nil (known_errors rule rule.period_years)) =
      rw (is_nil-append, is_nil-reason_if) refl in
    (
      (λ h. ((λ m. let t = back m in absurd (ground arith)), sound (ground arith))),
      λ (fresh, s).
          let s' = sound' s in
          elim (Bool-cases (member rule.table seen)) [
            | inl t ↦ absurd (fresh (there t))
            | inr f ↦ ground arith
          ],
    )

-- A configuration has no errors exactly if no two rules are of one table, and each rule whose period
-- is known has a positive one, of eight years at least where the table carries decisions, and is not
-- both a statutory duty and erasable on request.
pub validate_iff : (rules : List RetentionRule) → (validate rules ≡ []) ↔ IsConsistent [] rules
unfolding validate validate_from
validate_iff rules =
    let (nil, nil') = is_nil_iff (validate_from [] rules) in
    let (down, up) = from [] rules in ((λ h. down (nil' h)), λ c. nil (up c))
  where
    from :
        (seen : List String) (rules : List RetentionRule)
        → (is_nil (validate_from seen rules) ≡ true) ↔ IsConsistent seen rules
    from seen [] = ((λ h. tt), λ h. refl)
    from seen (rule ∷ rules) =
        let (here, here') = rule_errors_iff seen rule in
        let (rest, rest') = from (rule.table ∷ seen) rules in
        let split =
          is_nil-append (rule_errors seen rule) (validate_from (rule.table ∷ seen) rules) in
        (
          (λ h. let (fresh, sound) = here (ground arith) in (fresh, sound, rest (ground arith))),
          λ (fresh, sound, later).
              let h = here' (fresh, sound) in let r = rest' later in ground arith,
        )
