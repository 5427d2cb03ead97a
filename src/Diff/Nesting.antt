-- ===== src/Diff/Nesting.antt =====
-- sameNestedSchema on a RECORD's own fields.
use bqsink.Common.{
  ℕ, ◌≡◌, refl, Bool, true, false, some, [], ◌∷◌, arith, ◌==◌, bool_eq, length, contains, Distinct,
  All, All-map, eq_refl,
}
use bqsink.Column.{
  FieldType, type_eq, type_eq_iff, Nested, no_columns, column, Schema, columns, names_of,
}
use bqsink.Diff.{same_columns, same_nested_schema}
use bqsink.Diff.Lookup.{last_named, last_named_absent, lookup-by_name_nil}

-- No RECORD, at any depth, has two fields of one name.
abbrev pub IsProper : Nested → Type 0
IsProper no_columns = Unit
IsProper (column n t rep req d s sub rest) =
    (contains n (names_of (columns rest)) ≡ false) × IsProper sub × IsProper rest

pub last_named_self :
    (fs : Schema) → Distinct (names_of fs) → All (λ f. last_named f.name fs ≡ some f) fs
unfolding last_named
last_named_self [] u = tt
last_named_self (f ∷ fs) u = (
  ground (arith, last_named_absent f.name fs u.0, eq_refl f.name),
  All-map (λ g e. ground (arith, e)) fs (last_named_self fs u.1),
)

pub IsProper-Distinct : (sub : Nested) → IsProper sub → Distinct (names_of (columns sub))
IsProper-Distinct no_columns h = tt
IsProper-Distinct (column n t rep req d s sub rest) h = (h.0, IsProper-Distinct rest h.2)

type_eq_self : (t : FieldType) → type_eq t t ≡ true
type_eq_self t = (type_eq_iff t t).1 refl

bool_eq_self : (b : Bool) → bool_eq b b ≡ true
bool_eq_self true = refl
bool_eq_self false = refl

==_self : (n : ℕ) → (n == n) ≡ true
==_self n = ground arith

same_columns_self :
    (sub : Nested) (got : Schema)
    → IsProper sub
    → All (λ f. last_named f.name got ≡ some f) (columns sub)
    → same_columns sub got ≡ true
unfolding same_columns
same_columns_self no_columns got h k = refl
same_columns_self (column n t rep req d s sub rest) got h k =
    let inner =
      same_columns_self sub (columns sub) h.1
        (last_named_self (columns sub) (IsProper-Distinct sub h.1)) in
    let later = same_columns_self rest got h.2 k.1 in
    rw (lookup-by_name_nil n got) (
      ground (
        arith,
        k.0,
        inner,
        later,
        type_eq_self t,
        bool_eq_self rep,
        bool_eq_self req,
        ==_self (length (columns sub)),
      ))

-- A RECORD without repeated names agrees with itself.
pub same_nested_schema_self : (sub : Nested) → IsProper sub → same_nested_schema sub sub ≡ true
unfolding same_nested_schema
same_nested_schema_self sub h = ground (
  arith,
  same_columns_self sub (columns sub) h (last_named_self (columns sub) (IsProper-Distinct sub h)),
  ==_self (length (columns sub)),
)
