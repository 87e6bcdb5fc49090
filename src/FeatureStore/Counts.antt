-- ===== src/FeatureStore/Counts.antt =====
-- The diagnostics of the join: which rows `missing` and `expired` count.

use ailending_hub.Prelude.{
  ℕ, ◌+◌, ◌≡◌, refl, ap, Bool, false, not, ◌&&◌, List, [], ◌∷◌, ◌++◌, String, arith, inl, inr,
  count_if, Bool-cases, subst, if◌then◌else◌, Dict, lookup, lookup-insert, All, IsIn, str_eq,
  eq_iff, is_some, ok, All-IsIn,
}
use ailending_hub.FeatureStore.Values.{FeatureSource}
use ailending_hub.FeatureStore.Order.{IsOrdered}
use ailending_hub.FeatureStore.Join.{
  EntityRow, JoinResult, Progress, count_of, bump, start_row, count_absent, get_historical_features,
}
use ailending_hub.FeatureStore.NoLeak.{
  after_source, after_sources, after_rows, dataset, get_historical_features-ok,
}
use ailending_hub.FeatureStore.Dataset.{answer, latest, IsUnused, HasDistinctNames}
use ailending_hub.FeatureStore.Known.{
  some_known, some_young, latest-some_known, answer-some_young, some_young-some_known,
}

count_of-bump :
    (n k : String) (d : Dict ℕ)
    → count_of n (bump k d) ≡ count_of n d + (if str_eq k n then 1 else 0)
unfolding bump
count_of-bump n k d = elim (Bool-cases (str_eq k n)) [
  | inl t ↦
      let same : k ≡ n = (eq_iff k n).0 t in
      ground (arith, lookup-insert k n (count_of k d + 1) d, ap (λ j. lookup j d) same)
  | inr f ↦ ground (arith, lookup-insert k n (count_of k d + 1) d)
]

module _ {V : Type 0} where
  -- Nothing was knowable; or something was, and its TTL had run out.
  abbrev pub is_missing : FeatureSource V → EntityRow V → Bool
  is_missing s e = not (is_some (answer e s)) && not (is_some (latest e s))

  abbrev pub is_expired : FeatureSource V → EntityRow V → Bool
  is_expired s e = not (is_some (answer e s)) && is_some (latest e s)

  counts-after_source :
      (n : String) (e : EntityRow V) (s : FeatureSource V) (p : Progress V)
      → (count_of n (after_source e s p).missing
          ≡ count_of n p.missing + (if str_eq s.spec.name n && is_missing s e then 1 else 0))
        × (count_of n (after_source e s p).expired
            ≡ count_of n p.expired + (if str_eq s.spec.name n && is_expired s e then 1 else 0))
  unfolding after_source count_absent
  counts-after_source n e s p =
      ground (arith, count_of-bump n s.spec.name p.missing, count_of-bump n s.spec.name p.expired)

  counts-after_sources :
      (n : String) (e : EntityRow V) (ss : List (FeatureSource V)) (p : Progress V)
      → IsUnused n ss
      → (count_of n (after_sources e ss p).missing ≡ count_of n p.missing)
        × (count_of n (after_sources e ss p).expired ≡ count_of n p.expired)
  unfolding after_sources
  counts-after_sources n e [] p h = (refl, refl)
  counts-after_sources n e (s ∷ ss) p h = ground (
    arith,
    counts-after_sources n e ss (after_source e s p) h.1,
    counts-after_source n e s p,
    h.0,
  )

  counts-after_sources_self :
      (e : EntityRow V) (ss : List (FeatureSource V)) (p : Progress V) (s : FeatureSource V)
      → HasDistinctNames ss
      → IsIn s ss
      → (count_of s.spec.name (after_sources e ss p).missing
          ≡ count_of s.spec.name p.missing + (if is_missing s e then 1 else 0))
        × (count_of s.spec.name (after_sources e ss p).expired
            ≡ count_of s.spec.name p.expired + (if is_expired s e then 1 else 0))
  unfolding after_sources
  counts-after_sources_self e [] p s d m = absurd m
  counts-after_sources_self e (x ∷ xs) p s d (inl same) =
      subst
        (λ y.
          (count_of y.spec.name (after_sources e xs (after_source e x p)).missing
            ≡ count_of y.spec.name p.missing + (if is_missing y e then 1 else 0))
          × (count_of y.spec.name (after_sources e xs (after_source e x p)).expired
              ≡ count_of y.spec.name p.expired + (if is_expired y e then 1 else 0)))
        same
        (ground (
          arith,
          counts-after_sources x.spec.name e xs (after_source e x p) d.0,
          counts-after_source x.spec.name e x p,
          eq_iff x.spec.name x.spec.name,
        ))
  counts-after_sources_self e (x ∷ xs) p s d (inr later) =
      let (m, q) = counts-after_sources_self e xs (after_source e x p) s d.1 later in
      let (m0, q0) = counts-after_source s.spec.name e x p in
      let differs : str_eq x.spec.name s.spec.name ≡ false = name_ne xs d.0 later in ground arith
    where
      name_ne :
          (ys : List (FeatureSource V))
          → IsUnused x.spec.name ys
          → IsIn s ys
          → str_eq x.spec.name s.spec.name ≡ false
      name_ne ys h i =
          let e' : str_eq s.spec.name x.spec.name ≡ false =
            All-IsIn (λ y. str_eq y.spec.name x.spec.name ≡ false) s ys h i in
          ground (arith, eq_iff s.spec.name x.spec.name, eq_iff x.spec.name s.spec.name)

  counts-after_rows :
      (ss : List (FeatureSource V)) (s : FeatureSource V) (es : List (EntityRow V))
      (r : JoinResult V)
      → HasDistinctNames ss
      → IsIn s ss
      → (count_of s.spec.name (after_rows ss es r).missing
          ≡ count_of s.spec.name r.missing + count_if (is_missing s) es)
        × (count_of s.spec.name (after_rows ss es r).expired
            ≡ count_of s.spec.name r.expired + count_if (is_expired s) es)
  unfolding after_rows
  counts-after_rows ss s [] r d m = omega arith
  counts-after_rows ss s (e ∷ es) r d m =
      let p0 : Progress V = record {
        cells = start_row e;
        missing = r.missing;
        expired = r.expired;
      } in
      let p : Progress V = after_sources e ss p0 in
      let r' : JoinResult V = record {
        rows = r.rows ++ p.cells ∷ [];
        missing = p.missing;
        expired = p.expired;
      } in
      omega (arith, counts-after_sources_self e ss p0 s d m, counts-after_rows ss s es r' d m)

  count_if_as :
      (p q : EntityRow V → Bool)
      → ((e : EntityRow V) → p e ≡ q e)
      → (es : List (EntityRow V)) → count_if p es ≡ count_if q es
  count_if_as p q same [] = refl
  count_if_as p q same (e ∷ es) = ground (arith, same e, count_if_as p q same es)

  -- Every source in key order and every name once: the join returns and its diagnostics are exact.
  -- For each feature, `missing` counts the rows at which no value of the entity's history was both
  -- true and in the warehouse, and `expired` counts the rows at which some were but none of those was
  -- within the TTL.
  pub get_historical_features_counts :
      (strict : Bool) (es : List (EntityRow V)) (ss : List (FeatureSource V)) (s : FeatureSource V)
      → All IsOrdered ss
      → HasDistinctNames ss
      → IsIn s ss
      → (r : JoinResult V) × (get_historical_features es ss strict ≡ ok r)
        × (count_of s.spec.name r.missing ≡ count_if (λ e. not (some_known s e)) es)
        × (count_of s.spec.name r.expired
            ≡ count_if (λ e. some_known s e && not (some_young s e)) es)
  unfolding lookup
  get_historical_features_counts strict es ss s h d m =
      let ordered = All-IsIn IsOrdered s ss h m in
      let (missed, stale) =
        counts-after_rows ss s es (record { rows = []; missing = []; expired = [] }) d m in
      let unknown =
        count_if_as (is_missing s) (λ e. not (some_known s e))
          (λ e. ground (
            arith,
            latest-some_known s e,
            answer-some_young s e ordered,
            some_young-some_known s e,
          ))
          es in
      let old =
        count_if_as (is_expired s) (λ e. some_known s e && not (some_young s e))
          (λ e. ground (arith, latest-some_known s e, answer-some_young s e ordered)) es in
      (dataset es ss, get_historical_features-ok strict es ss h, omega arith, omega arith)
