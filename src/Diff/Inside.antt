-- ===== src/Diff/Inside.antt =====
-- What sameNestedSchema decides, said of the fields.
use bqsink.Common.{
  ◌≡◌, ◌↔◌, refl, sym, subst, inl, inr, Bool-cases, Bool, true, ◌&&◌, Option, none, some, arith,
  ◌==◌, length,
}
use bqsink.Column.{
  type_eq, type_eq_iff, record_type, Nested, no_columns, column, FieldSchema, Schema, columns,
}
use bqsink.Diff.{same_field, same_found, same_columns, same_nested_schema}
use bqsink.Diff.Lookup.{last_named, lookup-by_name_nil}

-- Every field of the first stands in the second, the last of its name counting: of the same type, as
-- REPEATED and as REQUIRED, and, where it is a RECORD, holding as many fields and again each of them.
abbrev pub Holds : Nested → Schema → Type 0
Holds no_columns got = Unit
Holds (column n t rep req d s sub rest) got =
    ((g : FieldSchema) × (last_named n got ≡ some g)
      × (t ≡ g.field_type)
      × (rep ≡ g.repeated)
      × (req ≡ g.required)
      × (t ≡ record_type
          → (length (columns sub) ≡ length (columns g.schema)) × Holds sub (columns g.schema)))
    × Holds rest got

abbrev pub SameInside : Nested → Nested → Type 0
SameInside want got = (length (columns want) ≡ length (columns got)) × Holds want (columns got)

same_columns_iff : (sub : Nested) (got : Schema) → (same_columns sub got ≡ true) ↔ Holds sub got
unfolding same_columns
same_columns_iff no_columns got = (λ h. tt, λ h. refl)
same_columns_iff (column n t rep req d s sub rest) got = rw (lookup-by_name_nil n got) (
    go (last_named n got) (λ g. same_columns_iff sub (columns g.schema))
      (same_columns_iff rest got))
  where
    Found : Option FieldSchema → Type 0
    Found o =
        (g : FieldSchema) × (o ≡ some g)
        × (t ≡ g.field_type)
        × (rep ≡ g.repeated)
        × (req ≡ g.required)
        × (t ≡ record_type
            → (length (columns sub) ≡ length (columns g.schema)) × Holds sub (columns g.schema))

    inner : FieldSchema → Bool
    inner g =
        (length (columns sub) == length (columns g.schema)) && same_columns sub (columns g.schema)

    some_inj : {a b : FieldSchema} → some a ≡ some b → a ≡ b
    some_inj h = cc

    agrees :
        (g : FieldSchema)
        → (same_columns sub (columns g.schema) ≡ true) ↔ Holds sub (columns g.schema)
        → t ≡ g.field_type
        → rep ≡ g.repeated
        → req ≡ g.required
        → (t ≡ record_type
            → (length (columns sub) ≡ length (columns g.schema)) × Holds sub (columns g.schema))
        → same_field t rep req g (inner g) ≡ true
    agrees g ih ty rp rq inside = elim (Bool-cases (type_eq t record_type)) [
      | inl is_record ↦
          let (same_length, there) = inside ((type_eq_iff t record_type).0 is_record) in
          ground
            (arith, is_record, same_length, ih.1 there, (type_eq_iff t g.field_type).1 ty, rp, rq)
      | inr other ↦ ground (arith, other, (type_eq_iff t g.field_type).1 ty, rp, rq)
    ]

    go :
        (o : Option FieldSchema)
        → ((g : FieldSchema)
            → (same_columns sub (columns g.schema) ≡ true) ↔ Holds sub (columns g.schema))
        → (same_columns rest got ≡ true) ↔ Holds rest got
        → ((same_found t rep req o inner && same_columns rest got) ≡ true)
          ↔ (Found o × Holds rest got)
    go none ih later = (λ h. cc, λ ((g, e, _, _, _, _), _). cc)
    go (some g) ih later = (
      λ h. (
        (
          g,
          refl,
          (type_eq_iff t g.field_type).0 (ground (arith, h)),
          ground (arith, h),
          ground (arith, h),
          λ e.
              let is_record = (type_eq_iff t record_type).1 e in
              (ground (arith, h, is_record), (ih g).0 (ground (arith, h, is_record))),
        ),
        later.0 (ground (arith, h)),
      ),
      λ ((g', e, ty, rp, rq, inside), after).
          let same : g' ≡ g = some_inj (sym e) in
          let fits : same_field t rep req g (inner g) ≡ true =
            subst (λ x. same_field t rep req x (inner x) ≡ true) same
              (agrees g' (ih g') ty rp rq inside) in
          ground (arith, later.1 after, fits),
    )

pub same_nested_schema_iff :
    (want got : Nested) → (same_nested_schema want got ≡ true) ↔ SameInside want got
unfolding same_nested_schema
same_nested_schema_iff want got =
    let inside = same_columns_iff want (columns got) in
    (
      λ h. (ground (arith, h), inside.0 (ground (arith, h))),
      λ (l, h). ground (arith, l, inside.1 h),
    )
