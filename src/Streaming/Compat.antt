-- ===== src/Streaming/Compat.antt =====
-- streaming/compat.py: Schema, check_backward and is_backward_compatible. Of a default only its
-- presence is read; the raw document is not kept.
use ailending_hub.Prelude.{
  ℕ, Bool, true, false, not, ◌&&◌, ◌||◌, Option, none, some, List, [], ◌∷◌, ◌++◌, String, any, all,
  map, if◌then◌else◌, str_eq, is_some, Result, ok, err, ◌>>=◌, Dict, lookup, insert, member,
  reason_if,
}

-- `PROMOTIONS.get(name, frozenset())`
unfoldable pub promotions : String → List String
promotions old =
    if str_eq old "int"
    then "long" ∷ "float" ∷ "double" ∷ []
    else if str_eq old "long"
    then "float" ∷ "double" ∷ []
    else if str_eq old "float"
    then "double" ∷ []
    else if str_eq old "string"
    then "bytes" ∷ []
    else if str_eq old "bytes"
    then "string" ∷ []
    else []

pub data Severity : Type 0 where
  breaking warning : Severity

-- The texts of the messages.
pub data IssueText : Type 0 where
  renamed : (old new : String) → IssueText
  added_without_default removed : IssueText
  type_changed : (old new : List String) → IssueText
  default_removed : IssueText

pub record CompatIssue : Type 0 where
  pub severity : Severity
  pub field_name : String
  pub message : IssueText

-- A type by name, or a complex type, whose dict may lack its `type`.
pub data Branch : Type 0 where
  named : String → Branch
  complex : Option String → Branch

pub data FieldType : Type 0 where
  single : Branch → FieldType
  union : List Branch → FieldType

pub record Field : Type 0 where
  pub field_type : FieldType
  pub has_default : Bool

pub record Schema : Type 0 where
  pub name : String
  pub version : ℕ
  pub fields : Dict Field

-- A field's dict in the document, and the document.
pub record FieldDoc : Type 0 where
  pub name : Option String
  pub field_type : Option FieldType
  pub has_default : Bool

pub record SchemaDoc : Type 0 where
  pub name : Option String
  pub version : Option ℕ
  pub fields : List FieldDoc

pub data SchemaError : Type 0 where
  incomplete_field no_name : SchemaError

abbrev or_one : Option ℕ → ℕ
or_one none = 1
or_one (some n) = n

unfoldable pub fields_of : List FieldDoc → Dict Field → Result SchemaError (Dict Field)
fields_of [] d = ok d
fields_of (f ∷ fs) d = elim f.name [
  | none ↦ err incomplete_field
  | some n ↦ elim f.field_type [
    | none ↦ err incomplete_field
    | some t ↦ fields_of fs (insert n (record { field_type = t; has_default = f.has_default }) d)
  ]
]

-- `Schema.from_dict`
unfoldable pub schema_of : SchemaDoc → Result SchemaError Schema
unfolding fields_of
schema_of doc = do
  fs ← fields_of doc.fields []
  elim doc.name [
    | none ↦ err no_name
    | some n ↦ ok (record { name = n; version = or_one doc.version; fields = fs })
  ]

unfoldable pub branch_name : Branch → String
branch_name (named n) = n
branch_name (complex none) = "record"
branch_name (complex (some n)) = n

-- `_type_names`
unfoldable pub type_names : Field → List String
unfolding branch_name
type_names f = elim f.field_type [ single b ↦ branch_name b ∷ [] | union bs ↦ map branch_name bs ]

-- A reader of one of the new types can read a value of the old type.
unfoldable pub can_read : List String → String → Bool
can_read new old = member old new || any (λ n. member n (promotions old)) new

-- `_promotable`
unfoldable pub promotable : List String → List String → Bool
unfolding can_read
promotable old new = all (can_read new) old

abbrev pub issue : Severity → String → IssueText → CompatIssue
issue s f m = record { severity = s; field_name = f; message = m }

-- The loop over the new fields.
unfoldable pub added_issues : Dict Field → Dict Field → List CompatIssue
added_issues old [] = []
added_issues old ((name, f) ∷ fs) =
    reason_if (not (is_some (lookup name old)) && not f.has_default)
      (issue breaking name added_without_default)
    ++ added_issues old fs

-- The body of the loop over the old fields, where the field is kept.
unfoldable pub kept_issues : String → Field → Field → List CompatIssue
unfolding type_names promotable
kept_issues name old new =
    reason_if (not (promotable (type_names old) (type_names new)))
      (issue breaking name (type_changed (type_names old) (type_names new)))
    ++ reason_if (old.has_default && not new.has_default) (issue breaking name default_removed)

unfoldable pub old_issues : Dict Field → Dict Field → List CompatIssue
unfolding kept_issues
old_issues new [] = []
old_issues new ((name, f) ∷ fs) =
    (elim (lookup name new) [
      | none ↦ issue warning name removed ∷ []
      | some g ↦ kept_issues name f g
    ])
    ++ old_issues new fs

unfoldable pub check_backward : Schema → Schema → List CompatIssue
unfolding added_issues old_issues
check_backward old new =
    reason_if (not (str_eq old.name new.name))
      (issue breaking "<record>" (renamed old.name new.name))
    ++ (added_issues old.fields new.fields ++ old_issues new.fields old.fields)

abbrev pub is_breaking : CompatIssue → Bool
is_breaking i = elim i.severity [ breaking ↦ true | warning ↦ false ]

unfoldable pub is_backward_compatible : Schema → Schema → Bool
unfolding check_backward
is_backward_compatible old new = not (any is_breaking (check_backward old new))
