-- ===== src/Privacy/Permission.antt =====
-- Exactly what a consent permits.
use ailending_hub.Prelude.{
  any_iff, ℕ, ◌≤◌, ◌<◌, ◌≡◌, refl, ◌↔◌, true, false, Option, none, some, arith, IsIn, ok,
}
use ailending_hub.Privacy.Consent.{
  Purpose, DataCategory, same_purpose, same_category, ConsentArtifact, has_come, permits, require,
}

same_purpose_iff : (p q : Purpose) → (same_purpose p q ≡ true) ↔ (q ≡ p)
unfolding same_purpose
same_purpose_iff p q = (there p q, back p q)
  where
    there : (p q : Purpose) → same_purpose p q ≡ true → q ≡ p
    there p q h = ground arith

    back : (p q : Purpose) → q ≡ p → same_purpose p q ≡ true
    back p q e = ground arith

same_category_iff : (p q : DataCategory) → (same_category p q ≡ true) ↔ (q ≡ p)
unfolding same_category
same_category_iff p q = (there p q, back p q)
  where
    there : (p q : DataCategory) → same_category p q ≡ true → q ≡ p
    there p q h = ground arith

    back : (p q : DataCategory) → q ≡ p → same_category p q ≡ true
    back p q e = ground arith

-- The limit, if there is one, lies after `t`.
abbrev pub IsBefore : ℕ → Option ℕ → Type 0
IsBefore t none = Unit
IsBefore t (some limit) = t < limit

IsBefore-iff : (t : ℕ) (o : Option ℕ) → (has_come o t ≡ false) ↔ IsBefore t o
IsBefore-iff t none = ((λ h. tt), λ h. refl)
IsBefore-iff t (some limit) = ((λ h. ground arith), λ h. ground arith)

-- A consent permits a use exactly if the purpose and the category are among its own and the instant
-- is from its granting on, before it expires and before it is revoked; `require` returns in just
-- these cases.
pub permits_iff :
    (c : ConsentArtifact) (purpose : Purpose) (category : DataCategory) (t : ℕ)
    → let allowed =
        IsIn purpose c.purposes
        × IsIn category c.categories
        × (c.granted_at ≤ t)
        × IsBefore t c.expires_at
        × IsBefore t c.revoked_at in
      ((permits c purpose category t ≡ true) ↔ allowed)
      × ((require c purpose category t ≡ ok tt) ↔ allowed)
unfolding permits require
permits_iff c purpose category t =
    let (p, p') = any_iff same_purpose purpose (same_purpose_iff purpose) c.purposes in
    let (k, k') = any_iff same_category category (same_category_iff category) c.categories in
    let (e, e') = IsBefore-iff t c.expires_at in
    let (r, r') = IsBefore-iff t c.revoked_at in
    (
      (
        (λ h.
            (p (ground arith), k (ground arith), ground arith, e (ground arith), r (ground arith))),
        λ (a, b, from, x, y).
            let a' = p' a in let b' = k' b in let x' = e' x in let y' = r' y in ground arith,
      ),
      (
        (λ h.
            (p (ground arith), k (ground arith), ground arith, e (ground arith), r (ground arith))),
        λ (a, b, from, x, y).
            let a' = p' a in let b' = k' b in let x' = e' x in let y' = r' y in ground arith,
      ),
    )
