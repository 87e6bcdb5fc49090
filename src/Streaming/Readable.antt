-- ===== src/Streaming/Readable.antt =====
-- What compatibility promises to a consumer: the messages of the old schema can be read.
use ailending_hub.Prelude.{
  ◌≡◌, refl, sym, subst, ◌⊎◌, inl, inr, Bool, true, false, not, ◌&&◌, ◌||◌, none, some, List, [],
  ◌∷◌, ◌++◌, String, arith, any, str_eq, eq_iff, is_some, Bool-cases, Option-cases, Dict, lookup,
  member, member_iff, reason_if, IsIn,
}
use ailending_hub.Streaming.Compat.{
  Schema, Field, CompatIssue, type_names, promotions, can_read, promotable, added_issues,
  kept_issues, old_issues, check_backward, is_breaking, is_backward_compatible, breaking, warning,
  issue, added_without_default, removed, type_changed, default_removed, renamed,
}
use ailending_hub.Streaming.Avro.{
  Primitive, primitive_name, Promotes, Admits, Admits-type_names, type_names-Admits,
  promotions-Promotes,
}

-- A message of primitive values carries, for each field, a value of a primitive type.
abbrev pub Message : Type 0
Message = Dict Primitive

-- A message that a producer of the schema writes: every field is there, with one of its types, and
-- no other is.
abbrev pub Writes : Schema → Message → Type 0
Writes schema message =
    ((k : String) (f : Field)
      → lookup k schema.fields ≡ some f
      → (p : Primitive) × (lookup k message ≡ some p) × Admits f p)
    × ((k : String) → lookup k schema.fields ≡ none → lookup k message ≡ none)

-- A value of the written type is one of the reader's field, or is promoted to one.
abbrev pub Resolves : Primitive → Field → Type 0
Resolves p f = Admits f p ⊎ ((q : Primitive) × Admits f q × Promotes p q)

-- A consumer reads each of its fields from the message, or takes its default.
abbrev pub CanRead : Schema → Message → Type 0
CanRead schema message =
    (k : String) (f : Field)
    → lookup k schema.fields ≡ some f
    → ((p : Primitive) × (lookup k message ≡ some p) × Resolves p f)
      ⊎ (lookup k message ≡ none) × (f.has_default ≡ true)

any-append :
    {A : Type 0} (p : A → Bool) (xs ys : List A) → any p (xs ++ ys) ≡ (any p xs || any p ys)
any-append p [] ys = refl
any-append p (x ∷ xs) ys = ground (arith, any-append p xs ys)

-- None of two lists' issues breaks, so none of either breaks.
neither :
    (xs ys : List CompatIssue)
    → any is_breaking (xs ++ ys) ≡ false
    → (any is_breaking xs ≡ false) × (any is_breaking ys ≡ false)
neither xs ys h = let h' = rw (any-append is_breaking xs ys) at h in (ground arith, ground arith)

not_raised :
    (b : Bool) (x : CompatIssue)
    → x.severity ≡ breaking
    → any is_breaking (reason_if b x) ≡ false
    → b ≡ false
not_raised true x e h = absurd (ground arith)
not_raised false x e h = refl

no_added :
    (old fields : Dict Field) (k : String) (f : Field)
    → any is_breaking (added_issues old fields) ≡ false
    → lookup k fields ≡ some f
    → lookup k old ≡ none
    → f.has_default ≡ true
unfolding added_issues lookup
no_added old [] k f h e n = absurd (ground arith)
no_added old ((j, g) ∷ fields) k f h e n =
    let raised : Bool = not (is_some (lookup j old)) && not g.has_default in
    let (here, later) =
      neither (reason_if raised (issue breaking j added_without_default)) (added_issues old fields)
        h in
    let fine = not_raised raised (issue breaking j added_without_default) refl here in
    elim (Bool-cases (str_eq j k)) [
      | inl same ↦
          let j≡k = (eq_iff j k).0 same in
          let absent : lookup j old ≡ none = subst (λ x. lookup x old ≡ none) (sym j≡k) n in
          let kept : g.has_default ≡ true = let fine' = rw absent at fine in ground arith in
          let g≡f : g ≡ f = ground arith in subst (λ x. x.has_default ≡ true) g≡f kept
      | inr other ↦ no_added old fields k f later (ground arith) n
    ]

promotable-IsIn :
    (old new : List String) (t : String)
    → promotable old new ≡ true
    → IsIn t old
    → IsIn t new ⊎ ((n : String) × IsIn n new × IsIn n (promotions t))
unfolding promotable can_read
promotable-IsIn [] new t h m = absurd m
promotable-IsIn (x ∷ old) new t h (inl same) =
    subst (λ y. IsIn y new ⊎ ((n : String) × IsIn n new × IsIn n (promotions y))) same
      (readable (Bool-cases (member x new)))
  where
    first_found :
        (new : List String)
        → any (λ n. member n (promotions x)) new ≡ true
        → (n : String) × IsIn n new × IsIn n (promotions x)
    first_found [] f = absurd (ground arith)
    first_found (n ∷ new) f = elim (Bool-cases (member n (promotions x))) [
      | inl t ↦ (n, inl refl, (member_iff n (promotions x)).0 t)
      | inr no_n ↦ let (m, k, p) = first_found new (rw no_n at f) in (m, inr k, p)
    ]

    readable :
        (member x new ≡ true) ⊎ (member x new ≡ false)
        → IsIn x new ⊎ ((n : String) × IsIn n new × IsIn n (promotions x))
    readable (inl t) = inl ((member_iff x new).0 t)
    readable (inr f) = inr (first_found new (ground arith))
promotable-IsIn (x ∷ old) new t h (inr m) = promotable-IsIn old new t (ground arith) m

kept_promotable :
    (j : String) (f g : Field)
    → any is_breaking (kept_issues j f g) ≡ false
    → promotable (type_names f) (type_names g) ≡ true
unfolding kept_issues
kept_promotable j f g h =
    let unread : Bool = not (promotable (type_names f) (type_names g)) in
    let text : CompatIssue = issue breaking j (type_changed (type_names f) (type_names g)) in
    let default : List CompatIssue =
      reason_if (f.has_default && not g.has_default) (issue breaking j default_removed) in
    let fine = not_raised unread text refl (neither (reason_if unread text) default h).0 in
    ground arith

no_changed :
    (new fields : Dict Field) (k : String) (f g : Field)
    → any is_breaking (old_issues new fields) ≡ false
    → lookup k fields ≡ some f
    → lookup k new ≡ some g
    → promotable (type_names f) (type_names g) ≡ true
unfolding old_issues lookup
no_changed new [] k f g h e e' = absurd (ground arith)
no_changed new ((j, f') ∷ fields) k f g h e e' =
    let found : List CompatIssue = elim (lookup j new) [
      | none ↦ issue warning j removed ∷ []
      | some g' ↦ kept_issues j f' g'
    ] in
    let (here, later) = neither found (old_issues new fields) h in
    elim (Bool-cases (str_eq j k)) [
      | inl same ↦
          let j≡k = (eq_iff j k).0 same in
          let there : lookup j new ≡ some g = subst (λ x. lookup x new ≡ some g) (sym j≡k) e' in
          let f'≡f : f' ≡ f = ground arith in
          let here' : any is_breaking (kept_issues j f' g) ≡ false = rw there at here in
          subst (λ x. promotable (type_names x) (type_names g) ≡ true) f'≡f
            (kept_promotable j f' g here')
      | inr other ↦ no_changed new fields k f g later (ground arith) e'
    ]

-- A value of an admitted type of the old field is read by the new field.
promotable-Resolves :
    (f g : Field) (p : Primitive)
    → promotable (type_names f) (type_names g) ≡ true
    → Admits f p
    → Resolves p g
promotable-Resolves f g p h typed =
    elim (promotable-IsIn (type_names f) (type_names g) (primitive_name p) h
      (Admits-type_names f p typed)) [
        | inl m ↦ inl (type_names-Admits g p m)
        | inr (n, there, promoted) ↦
            let (q, named_n, promotes) = promotions-Promotes p n promoted in
            inr (
              q,
              type_names-Admits g q (subst (λ x. IsIn x (type_names g)) (sym named_n) there),
              promotes,
            )
      ]

-- If the new schema is compatible, the two have one name, and a consumer of the new one can read, by
-- Avro's resolution of primitive types, every message of primitive values that a producer of the old
-- one writes: each field of the new schema is in the message with a type that is one of its types or
-- is promoted to one, or is not in the message and has a default.
pub is_backward_compatible-CanRead :
    (old new : Schema) (message : Message)
    → is_backward_compatible old new ≡ true
    → Writes old message
    → (old.name ≡ new.name) × CanRead new message
unfolding is_backward_compatible check_backward
is_backward_compatible-CanRead old new message compatible (written, others) =
    let clean : any is_breaking (check_backward old new) ≡ false = ground arith in
    let moved : Bool = not (str_eq old.name new.name) in
    let text : CompatIssue = issue breaking "<record>" (renamed old.name new.name) in
    let (name, rest) =
      neither (reason_if moved text)
        (added_issues old.fields new.fields ++ old_issues new.fields old.fields) clean in
    let same = not_raised moved text refl name in
    let (added, kept) =
      neither (added_issues old.fields new.fields) (old_issues new.fields old.fields) rest in
    (
      (eq_iff old.name new.name).0 (ground arith),
      λ k g there. elim (Option-cases (lookup k old.fields)) [
        | inl absent ↦ inr (others k absent, no_added old.fields new.fields k g added there absent)
        | inr (f, was) ↦
            let (p, carried, typed) = written k f was in
            inl (
              p,
              carried,
              promotable-Resolves f g p (no_changed new.fields old.fields k f g kept was there)
                  typed,
            )
      ],
    )
