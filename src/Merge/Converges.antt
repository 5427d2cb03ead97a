-- ===== src/Merge/Converges.antt =====
-- A migration brings the table to the declaration: comparing them again finds nothing left to do.
use bqsink.Common.{
  String, ◌≡⟨◌⟩◌, ◌∎, ◌≡◌, refl, ap, Bool, true, not, ◌&&◌, Option, none, some, List, [], ◌∷◌, ◌++◌,
  arith, contains, Distinct, All, append-nil, subst,
}
use bqsink.Common.Assoc.{lookup}
use bqsink.Column.{FieldSchema, Schema, type_eq_iff, record_type, names_of}
use bqsink.Diff.{SchemaDiff, by_name, conflict_between, diff_declared, undeclared, diff_schema}
use bqsink.Diff.Lookup.{last_named, last_named-append, last_named-name, lookup-by_name_nil}
use bqsink.Diff.Agree.{Matches, Finds, diff_declared_quiet, is_quiet}
use bqsink.Diff.Classes.{Noted, diff_declared-Noted, undeclared-added}
use bqsink.Diff.Inside.{same_nested_schema_iff}
use bqsink.Diff.Nesting.{IsProper, same_nested_schema_self}
use bqsink.Fault.{ok}
use bqsink.Strategy.{append_new_columns, SchemaChange}
use bqsink.Strategy.Answers.{append-answer}
use bqsink.Merge.{relax_column, relax_all, merge_schema}
use bqsink.Merge.Names.{
  last_named-relax_all, names_of-relax_all, undeclared-names, undeclared-append,
}

-- A declaration in which no name, at any depth, stands twice.
abbrev pub IsDeclaration : Schema → Type 0
IsDeclaration want = Distinct (names_of want) × All (λ w. IsProper w.schema) want

Matches-relax_column :
    (w g : FieldSchema) (relax : List String)
    → g.name ≡ w.name
    → conflict_between w g ≡ none
    → contains w.name relax ≡ (not w.required && g.required)
    → Matches w (relax_column relax g)
unfolding relax_column conflict_between
Matches-relax_column w g relax n c r = record {
  types = ground (arith, type_eq_iff w.field_type g.field_type);
  repeated = ground arith;
  required = ground arith;
  nested = λ e.
      (same_nested_schema_iff w.schema (relax_column relax g).schema).0
        (ground (arith, type_eq_iff w.field_type record_type));
}

pub Matches-self : (w : FieldSchema) → IsProper w.schema → Matches w w
Matches-self w h = record {
  types = refl;
  repeated = refl;
  required = refl;
  nested = λ e. (same_nested_schema_iff w.schema w.schema).0 (same_nested_schema_self w.schema h);
}

-- After the patch each declared column is found as declared.
pub found_after :
    (d : SchemaDiff) (got : Schema) (w : FieldSchema) (o : Option FieldSchema)
    → last_named w.name got ≡ o
    → IsProper w.schema
    → Noted d w o
    → Finds (relax_all d.relaxed got ++ d.added) w
found_after d got w none e p h = (
  w,
  ground (arith, last_named-append w.name (relax_all d.relaxed got) d.added),
  Matches-self w p,
)
found_after d got w (some g) e p (c, r, a) = (
  relax_column d.relaxed g,
  ground (
    arith,
    last_named-append w.name (relax_all d.relaxed got) d.added,
    last_named-relax_all w.name d.relaxed got,
  ),
  Matches-relax_column w g d.relaxed (last_named-name w.name got e) c r,
)

found_all :
    (d : SchemaDiff) (got ws : Schema)
    → All (λ w. IsProper w.schema) ws
    → All (λ w. Noted d w (last_named w.name got)) ws
    → All (Finds (relax_all d.relaxed got ++ d.added)) ws
found_all d got [] p h = tt
found_all d got (w ∷ ws) p h =
    (found_after d got w (last_named w.name got) refl p.0 h.0, found_all d got ws p.1 h.1)

Noted-by_schema :
    (d : SchemaDiff) (got ws : Schema)
    → All (λ w. Noted d w (lookup w.name (by_name [] got))) ws
    → All (λ w. Noted d w (last_named w.name got)) ws
Noted-by_schema d got [] h = tt
Noted-by_schema d got (w ∷ ws) h =
    (subst (Noted d w) (lookup-by_name_nil w.name got) h.0, Noted-by_schema d got ws h.1)

-- The patched schema for a declaration in which no column conflicts.
abbrev pub patched : Schema → SchemaDiff → Schema
patched got d = relax_all d.relaxed got ++ d.added

pub all_found :
    (want got : Schema)
    → IsDeclaration want
    → (diff_schema want got).conflicts ≡ []
    → All (Finds (patched got (diff_schema want got))) want
unfolding diff_schema
all_found want got p h =
    let d = diff_declared (by_name [] got) want in
    found_all d got want p.1
      (Noted-by_schema d got want (diff_declared-Noted (by_name [] got) want p.0 h))

pub nil_of_quiet :
    (d : SchemaDiff) → is_quiet d ≡ true → (d.added ≡ []) × (d.relaxed ≡ []) × (d.conflicts ≡ [])
unfolding is_quiet
nil_of_quiet d h = ground arith

pub undeclared-patched :
    (want got : Schema)
    → undeclared (names_of want) (patched got (diff_schema want got))
      ≡ undeclared (names_of want) got
undeclared-patched want got =
    let d = diff_schema want got in
    let declared = names_of want in
    undeclared declared (relax_all d.relaxed got ++ d.added)
    ≡⟨ undeclared-append declared (relax_all d.relaxed got) d.added ⟩
      undeclared declared (relax_all d.relaxed got) ++ undeclared declared d.added
    ≡⟨ ap (λ l. undeclared declared (relax_all d.relaxed got) ++ l) (undeclared-added want got) ⟩
      undeclared declared (relax_all d.relaxed got) ++ []
    ≡⟨ append-nil _ ⟩ undeclared declared (relax_all d.relaxed got)
    ≡⟨ undeclared-names declared (relax_all d.relaxed got) got (names_of-relax_all d.relaxed got) ⟩
      undeclared declared got ∎

-- Whatever AppendNewColumns asks for of an existing table, once the patch is merged a second
-- comparison finds no column to add, none to relax and no conflict, and finds the same undeclared
-- columns as the first.
pub append_converges :
    (create : Bool) (want got : Schema) {change : SchemaChange}
    → IsDeclaration want
    → (append_new_columns create (record { exists = true; diff = diff_schema want got })).answer
      ≡ ok change
    → ((diff_schema want (merge_schema got change)).added ≡ [])
      × ((diff_schema want (merge_schema got change)).relaxed ≡ [])
      × ((diff_schema want (merge_schema got change)).conflicts ≡ [])
      × ((diff_schema want (merge_schema got change)).removed ≡ (diff_schema want got).removed)
unfolding merge_schema diff_schema
append_converges create want got {change} p h =
    let d = diff_schema want got in
    let (c, e) = append-answer create d h in
    let next = patched got d in
    let q =
      nil_of_quiet (diff_declared (by_name [] next) want)
        ((diff_declared_quiet next want).1 (all_found want got p c)) in
    rw e (q.0, q.1, q.2, undeclared-patched want got)
