-- ===== src/Diff/Agree.antt =====
-- When DiffSchema finds nothing: the declaration and the table agree.
use bqsink.Common.{
  String, ◌≡◌, ◌↔◌, refl, Bool, true, false, not, ◌&&◌, Option, none, some, List, [], ◌∷◌, arith,
  is_empty, contains, All,
}
use bqsink.Column.{FieldSchema, Schema, record_type, type_eq_iff, names_of}
use bqsink.Diff.{
  SchemaDiff, empty, by_name, conflict_between, note_column, diff_declared, undeclared, diff_schema,
}
use bqsink.Diff.Inside.{SameInside, same_nested_schema_iff}
use bqsink.Diff.Lookup.{last_named, lookup-by_name_nil}

-- A declared column and the table's column that need no change.
pub record Matches (w g : FieldSchema) : Type 0 where
  pub types : w.field_type ≡ g.field_type
  pub repeated : w.repeated ≡ g.repeated
  pub required : w.required ≡ g.required
  pub nested : w.field_type ≡ record_type → SameInside w.schema g.schema

-- The schema holds the declared column as declared.
abbrev pub Finds : Schema → FieldSchema → Type 0
Finds got w = (g : FieldSchema) × (last_named w.name got ≡ some g) × Matches w g

-- Every declared column stands in the table as declared, and the table has no other.
abbrev pub Agree : Schema → Schema → Type 0
Agree want got = All (Finds got) want × All (λ g. contains g.name (names_of want) ≡ true) got

-- What conflictBetween and the test for a relaxed column leave.
is_settled : FieldSchema → FieldSchema → Bool
is_settled w g = elim (conflict_between w g) [
  | none ↦ not (not w.required && g.required)
  | some r ↦ false
]

is_settled_iff : (w g : FieldSchema) → (is_settled w g ≡ true) ↔ Matches w g
unfolding is_settled conflict_between
is_settled_iff w g = (
  λ h. record {
    types = ground (arith, type_eq_iff w.field_type g.field_type);
    repeated = ground arith;
    required = ground arith;
    nested = λ e.
        (same_nested_schema_iff w.schema g.schema).0
          (ground (arith, type_eq_iff w.field_type record_type));
  },
  λ m. ground (
    arith,
    λ (e : w.field_type ≡ record_type). (same_nested_schema_iff w.schema g.schema).1 (m.nested e),
    type_eq_iff w.field_type g.field_type,
    type_eq_iff w.field_type record_type,
  ),
)

-- Nothing found by the first loop.
unfoldable pub is_quiet : SchemaDiff → Bool
is_quiet d = is_empty d.added && is_empty d.relaxed && is_empty d.conflicts

note_column_quiet :
    (w : FieldSchema) (o : Option FieldSchema) (d : SchemaDiff)
    → (is_quiet (note_column w o d) ≡ true)
      ↔ (((g : FieldSchema) × (o ≡ some g) × Matches w g) × (is_quiet d ≡ true))
unfolding is_quiet
note_column_quiet w none d = ground arith
note_column_quiet w (some g) d = (
  λ h. ((g, refl, (is_settled_iff w g).0 (unfold is_settled in ground arith)), ground arith),
  λ p.
      let (g', e, m) = p.0 in
      let s : is_settled w g ≡ true = (is_settled_iff w g).1 (ground (arith, m)) in
      unfold is_settled in ground (arith, s),
)

pub diff_declared_quiet :
    (got want : Schema)
    → (is_quiet (diff_declared (by_name [] got) want) ≡ true) ↔ All (Finds got) want
unfolding diff_declared is_quiet
diff_declared_quiet got [] = (λ h. tt, λ h. refl)
diff_declared_quiet got (w ∷ ws) =
    let q = note_column_quiet w (last_named w.name got) (diff_declared (by_name [] got) ws) in
    let ih = diff_declared_quiet got ws in
    rw (lookup-by_name_nil w.name got) (λ h. ((q.0 h).0, ih.0 (q.0 h).1), λ p. q.1 (p.0, ih.1 p.1))

pub undeclared_empty :
    (declared : List String) (got : Schema)
    → (is_empty (undeclared declared got) ≡ true) ↔ All (λ g. contains g.name declared ≡ true) got
unfolding undeclared
undeclared_empty declared [] = (λ h. tt, λ h. refl)
undeclared_empty declared (g ∷ gs) = ground (arith, undeclared_empty declared gs)

-- DiffSchema finds nothing exactly when every declared column stands in the table, the last of its
-- name counting, with the type and the modes that were declared, and the table has no column besides;
-- a RECORD moreover holds as many fields as were declared, and each of those that were declared, the
-- last of its name counting, with the declared type and modes, and so at every depth.
pub diff_schema-empty_iff :
    (want got : Schema) → (empty (diff_schema want got) ≡ true) ↔ Agree want got
unfolding empty diff_schema is_quiet
diff_schema-empty_iff want got =
    let q = diff_declared_quiet got want in
    let u = undeclared_empty (names_of want) got in
    (λ h. (q.0 (ground arith), u.0 (ground arith)), λ a. ground (arith, q.1 a.0, u.1 a.1))
