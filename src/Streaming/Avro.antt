-- ===== src/Streaming/Avro.antt =====
-- The primitive types of Avro and its promotions, beside the type names and the table of
-- streaming/compat.py.
use ailending_hub.Prelude.{
  map, ap, ◌≡◌, refl, subst, ◌⊎◌, inl, inr, false, none, some, List, [], ◌∷◌, String, str_eq,
  eq_iff, IsIn,
}
use ailending_hub.Streaming.Compat.{
  branch_name, Branch, FieldType, named, complex, single, union, Field, type_names, promotions,
}

-- Avro's primitive types, and their names in a schema.
pub data Primitive : Type 0 where
  null boolean int long float double bytes string : Primitive

abbrev pub primitive_name : Primitive → String
primitive_name null = "null"
primitive_name boolean = "boolean"
primitive_name int = "int"
primitive_name long = "long"
primitive_name float = "float"
primitive_name double = "double"
primitive_name bytes = "bytes"
primitive_name string = "string"

-- The promotions of Avro's schema resolution: what is written as the one type is read as the other.
abbrev pub Promotes : Primitive → Primitive → Type 0
Promotes int long = Unit
Promotes int float = Unit
Promotes int double = Unit
Promotes long float = Unit
Promotes long double = Unit
Promotes float double = Unit
Promotes string bytes = Unit
Promotes bytes string = Unit
Promotes _ _ = ⊥

-- A branch is a primitive type, by its name alone or by a dict with that `type`.
abbrev pub Spells : Branch → Primitive → Type 0
Spells b p = (b ≡ named (primitive_name p)) ⊎ (b ≡ complex (some (primitive_name p)))

abbrev pub branches : FieldType → List Branch
branches (single b) = b ∷ []
branches (union bs) = bs

-- A value of the primitive type is one of the field's.
abbrev pub Admits : Field → Primitive → Type 0
Admits f p = (b : Branch) × IsIn b (branches f.field_type) × Spells b p

Spells-branch_name : (b : Branch) (p : Primitive) → Spells b p → branch_name b ≡ primitive_name p
unfolding branch_name
Spells-branch_name b p (inl e) = ap branch_name e
Spells-branch_name b p (inr e) = ap branch_name e

not_record : (p : Primitive) → str_eq "record" (primitive_name p) ≡ false
not_record null = refl
not_record boolean = refl
not_record int = refl
not_record long = refl
not_record float = refl
not_record double = refl
not_record bytes = refl
not_record string = refl

branch_name-Spells : (b : Branch) (p : Primitive) → branch_name b ≡ primitive_name p → Spells b p
unfolding branch_name
branch_name-Spells (named n) p e = inl (ap named e)
branch_name-Spells (complex none) p e =
    absurd (let t = (eq_iff "record" (primitive_name p)).1 e in cc (t, not_record p))
branch_name-Spells (complex (some n)) p e = inr (ap (λ x. complex (some x)) e)

IsIn-branch_name :
    (b : Branch) (bs : List Branch) → IsIn b bs → IsIn (branch_name b) (map branch_name bs)
IsIn-branch_name b [] m = absurd m
IsIn-branch_name b (x ∷ bs) (inl e) = inl (ap branch_name e)
IsIn-branch_name b (x ∷ bs) (inr m) = inr (IsIn-branch_name b bs m)

branch_name-IsIn :
    (n : String) (bs : List Branch)
    → IsIn n (map branch_name bs)
    → (b : Branch) × IsIn b bs × (branch_name b ≡ n)
branch_name-IsIn n [] m = absurd m
branch_name-IsIn n (x ∷ bs) (inl e) = (x, inl refl, e)
branch_name-IsIn n (x ∷ bs) (inr m) = let (b, k, e) = branch_name-IsIn n bs m in (b, inr k, e)

type_names-branches : (f : Field) → type_names f ≡ map branch_name (branches f.field_type)
unfolding type_names
type_names-branches f = go f.field_type
  where
    go :
        (t : FieldType)
        → elim t [ single b ↦ branch_name b ∷ [] | union bs ↦ map branch_name bs ]
          ≡ map branch_name (branches t)
    go (single b) = refl
    go (union bs) = refl

pub Admits-type_names :
    (f : Field) (p : Primitive) → Admits f p → IsIn (primitive_name p) (type_names f)
Admits-type_names f p (b, m, spelled) = rw type_names-branches (
    subst (λ n. IsIn n (map branch_name (branches f.field_type))) (Spells-branch_name b p spelled)
      (IsIn-branch_name b (branches f.field_type) m))

pub type_names-Admits :
    (f : Field) (p : Primitive) → IsIn (primitive_name p) (type_names f) → Admits f p
type_names-Admits f p m =
    let (b, k, e) =
      branch_name-IsIn (primitive_name p) (branches f.field_type) (rw type_names-branches at m) in
    (b, k, branch_name-Spells b p e)

-- The table of the code has no promotion but Avro's.
pub promotions-Promotes :
    (p : Primitive) (n : String)
    → IsIn n (promotions (primitive_name p))
    → (q : Primitive) × (primitive_name q ≡ n) × Promotes p q
unfolding promotions
promotions-Promotes null n m = absurd m
promotions-Promotes boolean n m = absurd m
promotions-Promotes int n (inl e) = (long, e, tt)
promotions-Promotes int n (inr (inl e)) = (float, e, tt)
promotions-Promotes int n (inr (inr (inl e))) = (double, e, tt)
promotions-Promotes int n (inr (inr (inr m))) = absurd m
promotions-Promotes long n (inl e) = (float, e, tt)
promotions-Promotes long n (inr (inl e)) = (double, e, tt)
promotions-Promotes long n (inr (inr m)) = absurd m
promotions-Promotes float n (inl e) = (double, e, tt)
promotions-Promotes float n (inr m) = absurd m
promotions-Promotes double n m = absurd m
promotions-Promotes bytes n (inl e) = (string, e, tt)
promotions-Promotes bytes n (inr m) = absurd m
promotions-Promotes string n (inl e) = (bytes, e, tt)
promotions-Promotes string n (inr m) = absurd m
