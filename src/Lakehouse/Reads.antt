-- ===== src/Lakehouse/Reads.antt =====
-- What any sequence of registrations keeps: every table reads registered tables of an allowed layer.
use ailending_hub.Prelude.{
  ◌≡◌, refl, sym, ap, ◌∙◌, subst, inl, inr, true, none, some, List, [], ◌∷◌, String, arith, str_eq,
  eq_iff, Bool-cases, Option-cases, Result, ok, err, ◌>>=◌, lookup, insert, lookup-insert, IsIn,
}
use ailending_hub.Lakehouse.Layers.{
  Layer, may_read, TableSpec, LayerViolation, Lakehouse, table_spec, check_upstream,
  check_upstreams, register_table,
}

-- The table that a name reads is registered, on a layer that the reader may read.
abbrev pub IsReadable : Lakehouse → Layer → String → Type 0
IsReadable tables reader u =
    (t : TableSpec) × (lookup u tables ≡ some t) × (may_read reader t.layer ≡ true)

-- Each table stands under its own name, has time travel, and reads only what it may.
abbrev pub IsLayered : Lakehouse → Type 0
IsLayered tables =
    (k : String) (s : TableSpec)
    → lookup k tables ≡ some s
    → (s.name ≡ k)
      × (s.time_travel ≡ true)
      × ((u : String) → IsIn u s.reads_from → IsReadable tables s.layer u)

-- A spec is constructed and registered; one that raises leaves the lakehouse as it was.
abbrev pub after : Lakehouse → Result LayerViolation Lakehouse → Lakehouse
after tables (ok tables') = tables'
after tables (err e) = tables

unfoldable pub run : List TableSpec → Lakehouse → Lakehouse
run [] tables = tables
run (s ∷ specs) tables = run specs (after tables (table_spec s >>= λ s'. register_table s' tables))

check_upstreams-ok :
    (s : TableSpec) (tables : Lakehouse) (us : List String) (u : String)
    → check_upstreams s tables us ≡ ok tt
    → IsIn u us
    → IsReadable tables s.layer u
unfolding check_upstreams check_upstream
check_upstreams-ok s tables [] u h m = absurd m
check_upstreams-ok s tables (v ∷ us) u h m = elim (Option-cases (lookup v tables)) [
  | inl absent ↦ absurd (ground arith)
  | inr (t, there) ↦ elim m [
    | inl same ↦ (t, ap (λ x. lookup x tables) (sym same) ∙ there, ground arith)
    | inr later ↦ check_upstreams-ok s tables us u (ground arith) later
  ]
]

table_spec-ok : (s s' : TableSpec) → table_spec s ≡ ok s' → (s' ≡ s) × (s.time_travel ≡ true)
unfolding table_spec
table_spec-ok s s' h = (ground arith, ground arith)

register_table-ok :
    (s : TableSpec) (tables tables' : Lakehouse)
    → register_table s tables ≡ ok tables'
    → (lookup s.name tables ≡ none)
      × (check_upstreams s tables s.reads_from ≡ ok tt)
      × (tables' ≡ insert s.name s tables)
unfolding register_table
register_table-ok s tables tables' h = elim (Option-cases (lookup s.name tables)) [
  | inl absent ↦ (absent, ground arith, ground arith)
  | inr (t, there) ↦ absurd (ground arith)
]

-- What could be read still can be once a new table is there.
IsReadable-insert :
    (tables : Lakehouse) (s : TableSpec) (layer : Layer) (u : String)
    → lookup s.name tables ≡ none
    → IsReadable tables layer u
    → IsReadable (insert s.name s tables) layer u
IsReadable-insert tables s layer u fresh (t, there, allowed) =
    let w = lookup-insert s.name u s tables in
    (
      t,
      elim (Bool-cases (str_eq s.name u)) [
        | inl same ↦ absurd (let e = (eq_iff s.name u).0 same in cc)
        | inr other ↦ ground arith
      ],
      allowed,
    )

register_table-IsLayered :
    (s s' : TableSpec) (tables tables' : Lakehouse)
    → table_spec s ≡ ok s'
    → register_table s' tables ≡ ok tables'
    → IsLayered tables
    → IsLayered tables'
register_table-IsLayered s s' tables tables' made h layered =
    let (same_spec, travels) = table_spec-ok s s' made in
    let (fresh, checked, e) = register_table-ok s' tables tables' h in
    subst IsLayered (sym e) (λ k t found.
      let w = lookup-insert s'.name k s' tables in
      elim (Bool-cases (str_eq s'.name k)) [
        | inl same ↦
            let it : s' ≡ t = ground arith in
            subst
              (λ t.
                (t.name ≡ k)
                × (t.time_travel ≡ true)
                × ((u : String)
                    → IsIn u t.reads_from
                    → IsReadable (insert s'.name s' tables) t.layer u))
              it
              (
                (eq_iff s'.name k).0 same,
                ap (λ x. x.time_travel) same_spec ∙ travels,
                λ u m.
                    IsReadable-insert tables s' s'.layer u fresh
                      (check_upstreams-ok s' tables s'.reads_from u checked m),
              )
        | inr other ↦
            let (named, travels, reads) = layered k t (ground arith) in
            (named, travels, λ u m. IsReadable-insert tables s' t.layer u fresh (reads u m))
      ])

run-IsLayered_from :
    (specs : List TableSpec) (tables : Lakehouse) → IsLayered tables → IsLayered (run specs tables)
unfolding run
run-IsLayered_from [] tables h = h
run-IsLayered_from (s ∷ specs) tables h =
    run-IsLayered_from specs (after tables (table_spec s >>= λ s'. register_table s' tables))
      (made (table_spec s) refl)
  where
    registered :
        (s' : TableSpec)
        → table_spec s ≡ ok s'
        → (o : Result LayerViolation Lakehouse) → register_table s' tables ≡ o
        → IsLayered (after tables o)
    registered s' e (ok tables') e' = register_table-IsLayered s s' tables tables' e e' h
    registered s' e (err x) e' = h

    made :
        (o : Result LayerViolation TableSpec)
        → table_spec s ≡ o
        → IsLayered (after tables (o >>= λ s'. register_table s' tables))
    made (ok s') e = registered s' e (register_table s' tables) refl
    made (err x) e = h

-- After any registrations from an empty lakehouse, refused ones included, every table stands under
-- its own name with time travel on, and each name that it reads is a registered table of a layer
-- that it may read: silver reads no gold, gold no bronze, and bronze nothing.
pub run-IsLayered : (specs : List TableSpec) → IsLayered (run specs [])
unfolding lookup
run-IsLayered specs = run-IsLayered_from specs [] (λ k s h. absurd (ground arith))
