-- ===== src/Mlops/Registry.antt =====
-- mlops/ports.py: InMemoryRegistry, whose dict is keyed by name and version, and the promise that
-- no version is in production without its evidence.
use ailending_hub.Prelude.{
  ℕ, ◌≤◌, ◌≡◌, ◌≢◌, refl, subst, inl, inr, Bool, true, ◌&&◌, Option, none, some, List, [], ◌∷◌,
  String, arith, str_eq, eq_iff, if◌then◌else◌, Bool-cases, Option-cases, Result, ok, err,
}
use ailending_hub.Mlops.Artifact.{Stage, production, same_stage, ModelArtifact}
use ailending_hub.Mlops.Promotion.{PromotionDecision, can_promote}
use ailending_hub.Mlops.Gate.{IsReady, RanShadow, can_promote_iff}

-- `dict[tuple[str, str], ModelArtifact]`
abbrev pub Registry : Type 0
Registry = List ((String × String) × ModelArtifact)

abbrev same_key : String × String → String × String → Bool
same_key a b = str_eq a.0 b.0 && str_eq a.1 b.1

unfoldable pub find : String → String → Registry → Option ModelArtifact
find name version [] = none
find name version ((k, a) ∷ r) = if same_key k (name, version) then some a else find name version r

store : String → String → ModelArtifact → Registry → Registry
store name version a [] = ((name, version), a) ∷ []
store name version a ((k, b) ∷ r) =
    if same_key k (name, version) then (k, a) ∷ r else (k, b) ∷ store name version a r

-- `register`: the entry is written over, whatever stage it had and the artifact has.
unfoldable pub register : ModelArtifact → Registry → Registry
unfolding store
register a r = store a.name a.version a r

pub data LookupError : Type 0 where
  not_in_registry : (name version : String) → LookupError

-- `transition`: the decision, and the registry with the artifact's new stage if it is allowed. The
-- registry holds the only reference that the calls of this module write through.
unfoldable pub transition :
    String
    → String
    → String
    → Stage
    → Bool
    → ℕ
    → Bool
    → Registry
    → Result LookupError (PromotionDecision × Registry)
unfolding store
transition fingerprint name version target via_ci now fallback_path_warm r =
    elim (find name version r) [
      | none ↦ err (not_in_registry name version)
      | some a ↦
          let d = can_promote fingerprint a target now via_ci fallback_path_warm in
          ok (d, if d.allowed then store name version (record a { stage = target }) r else r)
    ]

find-store :
    (n v m w : String) (a : ModelArtifact) (r : Registry)
    → find m w (store n v a r) ≡ (if same_key (n, v) (m, w) then some a else find m w r)
unfolding find store
find-store n v m w a [] = refl
find-store n v m w a (((n', v'), b) ∷ r) = ground (
  arith,
  eq_iff n' n,
  eq_iff v' v,
  eq_iff n' m,
  eq_iff v' w,
  eq_iff n m,
  eq_iff v w,
  find-store n v m w a r,
)

-- An artifact in production has its evidence, as of `t`.
abbrev pub IsCleared : String → ℕ → ModelArtifact → Type 0
IsCleared fingerprint t a = a.stage ≡ production → IsReady fingerprint a t true

abbrev pub IsSafe : String → ℕ → Registry → Type 0
IsSafe fingerprint t r =
    (n v : String) (a : ModelArtifact) → find n v r ≡ some a → IsCleared fingerprint t a

RanShadow-mono : (o : Option ℕ) {now t : ℕ} → now ≤ t → RanShadow o now → RanShadow o t
RanShadow-mono none h r = r
RanShadow-mono (some s) h r = omega arith

production_same : (s : Stage) → s ≡ production → same_stage s production ≡ true
unfolding same_stage
production_same s e = rw e

store-IsSafe :
    (fp : String) (t : ℕ) (n v : String) (a : ModelArtifact) (r : Registry)
    → IsSafe fp t r
    → IsCleared fp t a
    → IsSafe fp t (store n v a r)
store-IsSafe fp t n v a r safe cleared m w b found = elim (Bool-cases (same_key (n, v) (m, w))) [
  | inl same ↦
      let e : a ≡ b = ground (arith, find-store n v m w a r) in subst (IsCleared fp t) e cleared
  | inr other ↦ safe m w b (ground (arith, find-store n v m w a r))
]

-- A move at `now` keeps the promise as of any later instant: what it puts in production has its
-- evidence, and what it refuses it leaves alone.
pub transition-IsSafe :
    (fp name version : String) (target : Stage) (via_ci : Bool) (now : ℕ) (warm : Bool) (t : ℕ)
    (r r' : Registry) (d : PromotionDecision)
    → now ≤ t
    → IsSafe fp t r
    → transition fp name version target via_ci now warm r ≡ ok (d, r')
    → IsSafe fp t r'
unfolding transition
transition-IsSafe fp name version target via_ci now warm t r r' d early safe h =
    elim (Option-cases (find name version r)) [
      | inl absent ↦ absurd (ground arith)
      | inr (a, there) ↦ elim (Bool-cases (can_promote fp a target now via_ci warm).allowed) [
        | inl allowed ↦
            let moved : store name version (record a { stage = target }) r ≡ r' = ground arith in
            let (legal, ci, ready) = (can_promote_iff fp a target now via_ci warm).0 allowed in
            subst (IsSafe fp t) moved (
              store-IsSafe fp t name version (record a { stage = target }) r safe
                (λ in_production.
                  let (card, report, shadow, w, same) =
                    ready (production_same target in_production) in
                  (card, report, RanShadow-mono a.shadow_started_at early shadow, refl, same)))
        | inr refused ↦ let same : r ≡ r' = ground arith in subst (IsSafe fp t) same safe
      ]
    ]

-- The calls that change a registry.
pub data Call : Type 0 where
  registering : ModelArtifact → Call
  moving :
      (name version : String) (target : Stage) (via_ci : Bool) (now : ℕ) (fallback_path_warm : Bool)
      → Call

-- A LookupError leaves the registry as it was.
abbrev pub after_move : Registry → Result LookupError (PromotionDecision × Registry) → Registry
after_move r (ok (d, r')) = r'
after_move r (err e) = r

unfoldable pub run : String → List Call → Registry → Registry
run fp [] r = r
run fp (registering a ∷ calls) r = run fp calls (register a r)
run fp (moving name version target via_ci now warm ∷ calls) r =
    run fp calls (after_move r (transition fp name version target via_ci now warm r))

-- No call registers an artifact that already claims production, and no move is after `t`.
abbrev pub IsHonest : ℕ → List Call → Type 0
IsHonest t [] = Unit
IsHonest t (registering a ∷ calls) = (a.stage ≢ production) × IsHonest t calls
IsHonest t (moving name version target via_ci now warm ∷ calls) = (now ≤ t) × IsHonest t calls

run-IsSafe_from :
    (fp : String) (t : ℕ) (calls : List Call) (r : Registry)
    → IsHonest t calls
    → IsSafe fp t r
    → IsSafe fp t (run fp calls r)
unfolding run register
run-IsSafe_from fp t [] r h safe = safe
run-IsSafe_from fp t (registering a ∷ calls) r h safe =
    run-IsSafe_from fp t calls (register a r) h.1
      (store-IsSafe fp t a.name a.version a r safe (λ e. absurd (h.0 e)))
run-IsSafe_from fp t (moving name version target via_ci now warm ∷ calls) r h safe =
    run-IsSafe_from fp t calls (after_move r (transition fp name version target via_ci now warm r))
      h.1 (step (transition fp name version target via_ci now warm r) refl)
  where
    step :
        (o : Result LookupError (PromotionDecision × Registry))
        → transition fp name version target via_ci now warm r ≡ o
        → IsSafe fp t (after_move r o)
    step (err e) eq = safe
    step (ok (d, r')) eq =
        transition-IsSafe fp name version target via_ci now warm t r r' d h.0 safe eq

-- After any registrations and moves from an empty registry, every version in production has a model
-- card, a validation report, four weeks of shadow and the current definitions. The calls register no
-- artifact whose stage is production already.
pub run-IsSafe :
    (fp : String) (t : ℕ) (calls : List Call) → IsHonest t calls → IsSafe fp t (run fp calls [])
run-IsSafe fp t calls h =
    run-IsSafe_from fp t calls [] h (λ n v a found. empty_registry n v a found)
  where
    empty_registry : (n v : String) (a : ModelArtifact) → find n v [] ≡ some a → IsCleared fp t a
    empty_registry n v a found = unfold find in cc
