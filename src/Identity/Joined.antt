-- ===== src/Identity/Joined.antt =====
-- Which loans the spine has, and which of them have an application.
use ailending_hub.Prelude.{
  ◌≡◌, inl, inr, refl, subst, Bool, true, false, ◌&&◌, ◌||◌, Option, none, some, String, arith,
  if◌then◌else◌, Dict, lookup, lookup-insert, is_some, contains, str_eq, eq_iff, Bool-cases,
  Option-cases,
}
use ailending_hub.Identity.Keys.{Key, SpineKey, usable, rejected}
use ailending_hub.Identity.Spine.{Source, cbs, SpineRecord, seen_in, set_application, add_case}
use ailending_hub.Identity.Build.{Building, record_or_new, add_loan, change, resolve_case, apply_to}

-- The key is a usable one with the value `v`.
abbrev pub is_key : String → Option Key → Bool
is_key v none = false
is_key v (some (rejected _)) = false
is_key v (some (usable k)) = str_eq k.value v

abbrev pub is_usable : Option Key → Bool
is_usable none = false
is_usable (some (rejected _)) = false
is_usable (some (usable k)) = true

-- The spine has a record of the loan `v`, with an application.
abbrev pub has_application : String → Dict SpineRecord → Bool
has_application v spine = elim (lookup v spine) [ none ↦ false | some r ↦ is_some r.application ]

pub contains-add_loan :
    (v : String) (c : Option Key) (k : SpineKey) (b : Building)
    → contains v (add_loan c k b).spine ≡ (contains v b.spine || str_eq k.value v)
unfolding add_loan
contains-add_loan v c k b = rw (lookup-insert k.value v) (ground arith)

abbrev map_option : {A : Type 0} → (A → A) → Option A → Option A
map_option f none = none
map_option f (some a) = some (f a)

lookup-change :
    (v : String) (f : SpineRecord → SpineRecord) (k : SpineKey) (d : Dict SpineRecord)
    → lookup v (change f k d) ≡ (if str_eq k.value v then map_option f (lookup v d) else lookup v d)
lookup-change v f k d = elim (Option-cases (lookup k.value d)) [
  | inl n ↦ elim (Bool-cases (str_eq k.value v)) [
    | inl t ↦
        let n' : lookup v d ≡ none = subst (λ x. lookup x d ≡ none) ((eq_iff k.value v).0 t) n in
        rw (change, n, t, n') refl
    | inr o ↦ rw (change, n, o) refl
  ]
  | inr (r, e) ↦ elim (Bool-cases (str_eq k.value v)) [
    | inl t ↦
        let e' : lookup v d ≡ some r =
          subst (λ x. lookup x d ≡ some r) ((eq_iff k.value v).0 t) e in
        rw (change, e, lookup-insert k.value v, t, e') refl
    | inr o ↦ rw (change, e, lookup-insert k.value v, o) refl
  ]
]

-- A change of the record of `k` that sets the application where `used` says so.
pub contains-apply_to :
    (v : String) (f : SpineRecord → SpineRecord) (o : Option Key) (b : Building)
    → contains v (apply_to f o b).spine ≡ contains v b.spine
unfolding apply_to
contains-apply_to v f none b = refl
contains-apply_to v f (some (rejected r)) b = refl
contains-apply_to v f (some (usable k)) b = let found = lookup-change v f k b.spine in ground arith

pub has_application-apply_to :
    (v : String) (f : SpineRecord → SpineRecord) (used : Bool)
    → ((r : SpineRecord) → is_some (f r).application ≡ (is_some r.application || used))
    → (o : Option Key) (b : Building)
    → has_application v (apply_to f o b).spine
      ≡ (has_application v b.spine || contains v b.spine && (is_key v o && used))
unfolding apply_to
has_application-apply_to v f used sets none b = ground arith
has_application-apply_to v f used sets (some (rejected r)) b = ground arith
has_application-apply_to v f used sets (some (usable k)) b =
    let found = lookup-change v f k b.spine in
    elim (Option-cases (lookup v b.spine)) [
      | inl n ↦ rw (has_application, found, n) (ground arith)
      | inr (r, e) ↦ let now = sets r in rw (has_application, found, e) (ground arith)
    ]

pub resolve_case-apply_to :
    (f : SpineRecord → SpineRecord) (o : Option Key) (b : Building)
    → (resolve_case f o b).spine ≡ (apply_to f o b).spine
unfolding resolve_case apply_to
resolve_case-apply_to f none b = refl
resolve_case-apply_to f (some (rejected r)) b = refl
resolve_case-apply_to f (some (usable k)) b = elim (Option-cases (lookup k.value b.spine)) [
  | inl n ↦ rw (resolve_case, change, n) refl
  | inr (r, e) ↦ rw (resolve_case, change, e) refl
]

pub application-seen_in :
    (s : Source) (o : Option Key) (r : SpineRecord) → (seen_in s o r).application ≡ r.application
unfolding seen_in
application-seen_in s none r = refl
application-seen_in s (some (rejected _)) r = refl
application-seen_in s (some (usable k)) r = refl

pub application-add_case :
    (o : Option Key) (r : SpineRecord) → (add_case o r).application ≡ r.application
unfolding add_case
application-add_case none r = refl
application-add_case (some (rejected _)) r = refl
application-add_case (some (usable k)) r = refl

pub application-set_application :
    (o : Option Key) (r : SpineRecord)
    → is_some (set_application o r).application ≡ (is_some r.application || is_usable o)
unfolding set_application
application-set_application none r = ground arith
application-set_application (some (rejected _)) r = ground arith
application-set_application (some (usable k)) r = ground arith

fresh_record :
    (k : SpineKey) (o : Option SpineRecord)
    → is_some (record_or_new k o).application
      ≡ elim o [ none ↦ false | some r ↦ is_some r.application ]
fresh_record k none = refl
fresh_record k (some r) = refl

pub has_application-add_loan :
    (v : String) (c : Option Key) (k : SpineKey) (b : Building)
    → has_application v (add_loan c k b).spine ≡ has_application v b.spine
unfolding add_loan
has_application-add_loan v c k b =
    let kept = application-seen_in cbs c (record_or_new k (lookup k.value b.spine)) in
    elim (Bool-cases (str_eq k.value v)) [
      | inl t ↦
          let same = (eq_iff k.value v).0 t in
          rw (has_application, add_loan, lookup-insert k.value v, t)
            (rw kept (
              subst
                (λ x.
                  is_some (record_or_new k (lookup k.value b.spine)).application
                  ≡ has_application x b.spine)
                same (fresh_record k (lookup k.value b.spine))))
      | inr o ↦ rw (has_application, add_loan, lookup-insert k.value v, o) refl
    ]
