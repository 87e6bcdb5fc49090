-- ===== src/Streaming/Tests.antt =====
-- A schema whose `amount` is widened, whose `note` goes and whose `channel` comes with a default.
use ailending_hub.Prelude.{
  ap, sym, ◌≡◌, refl, subst, inl, inr, true, false, [], ◌∷◌, String, Bool-cases, str_eq, arith,
  lookup,
}
use ailending_hub.Streaming.Compat.{
  Schema, Field, single, named, type_names, branch_name, promotions, can_read, promotable,
  added_issues, kept_issues, old_issues, check_backward, is_backward_compatible,
}
use ailending_hub.Streaming.Avro.{Primitive, int, string, primitive_name, Admits}
use ailending_hub.Streaming.Readable.{Message, Writes, CanRead, is_backward_compatible-CanRead}

abbrev field : String → Field
field t = record { field_type = single (named t); has_default = false }

abbrev events_v1 : Schema
events_v1 = record {
  name = "Payment";
  version = 1;
  fields = ("amount", field "int") ∷ ("note", field "string") ∷ [];
}

abbrev events_v2 : Schema
events_v2 = record {
  name = "Payment";
  version = 2;
  fields =
      ("amount", field "long")
      ∷ ("channel", record { field_type = single (named "string"); has_default = true })
      ∷ [];
}

abbrev payment : Message
payment = ("amount", int) ∷ ("note", string) ∷ []

admitted :
    (t : String) (f : Field) (p : Primitive) → primitive_name p ≡ t → field t ≡ f → Admits f p
admitted t f p e same = subst (λ x. Admits x p) same (named t, inl refl, inl (ap named (sym e)))

payment-Writes : Writes events_v1 payment
unfolding lookup
payment-Writes = (
  λ k f e. elim (Bool-cases (str_eq "amount" k)) [
    | inl t ↦ (int, ground arith, admitted "int" f int refl (ground arith))
    | inr n ↦ elim (Bool-cases (str_eq "note" k)) [
      | inl t ↦ (string, ground arith, admitted "string" f string refl (ground arith))
      | inr m ↦ absurd (ground arith)
    ]
  ],
  λ k e. ground arith,
)

is_backward_compatible-CanRead_example :
    (events_v1.name ≡ events_v2.name) × CanRead events_v2 payment
unfolding is_backward_compatible check_backward added_issues old_issues kept_issues lookup
    type_names branch_name promotable can_read promotions
is_backward_compatible-CanRead_example =
    is_backward_compatible-CanRead events_v1 events_v2 payment refl payment-Writes
