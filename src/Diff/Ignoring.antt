-- ===== src/Diff/Ignoring.antt =====
-- Without drops what a diff says of some columns: the same as comparing the schemas without them.
use bqsink.Common.{
  String, ◌≡◌, refl, ap, ◌∙◌, sym, true, false, not, ◌&&◌, Option, none, some, List, [], ◌∷◌, arith,
  if◌then◌else◌, contains, keep_if, eq_iff, Bool-cases, inl, inr,
}
use bqsink.Common.Assoc.{lookup}
use bqsink.Column.{FieldSchema, Schema, names_of}
use bqsink.Diff.{
  SchemaDiff, by_name, note_column, diff_declared, undeclared, diff_schema, conflicts_outside,
  without,
}
use bqsink.Diff.Lookup.{last_named, lookup-by_name_nil}

-- The columns left when some names are dropped.
abbrev pub drop_named : List String → Schema → Schema
drop_named names = keep_if (λ f. not (contains f.name names))

abbrev names_outside : List String → List String → List String
names_outside names = keep_if (λ x. not (contains x names))

outside : List String → SchemaDiff → SchemaDiff
outside names d = record {
  added = drop_named names d.added;
  removed = names_outside names d.removed;
  relaxed = names_outside names d.relaxed;
  conflicts = conflicts_outside names d.conflicts;
}

keep_all {ℓ} : {A : Type ℓ} (xs : List A) → keep_if (λ x. true) xs ≡ xs
keep_all [] = refl
keep_all (x ∷ xs) = ap (λ l. x ∷ l) (keep_all xs)

without-outside : (d : SchemaDiff) (names : List String) → without d names ≡ outside names d
unfolding without outside
without-outside d [] = λ i. record {
  added = sym (keep_all d.added) i;
  removed = sym (keep_all d.removed) i;
  relaxed = sym (keep_all d.relaxed) i;
  conflicts = sym (keep_all d.conflicts) i;
}
without-outside d (n ∷ ns) = refl

outside-note_column :
    (names : List String) (w : FieldSchema) (o : Option FieldSchema) (d : SchemaDiff)
    → outside names (note_column w o d)
      ≡ (if contains w.name names then outside names d else note_column w o (outside names d))
unfolding outside
outside-note_column names w none d = ground arith
outside-note_column names w (some g) d = ground arith

pub last_named-drop_named :
    (n : String) (names : List String) (fs : Schema)
    → contains n names ≡ false
    → last_named n (drop_named names fs) ≡ last_named n fs
unfolding last_named
last_named-drop_named n names [] h = refl
last_named-drop_named n names (f ∷ fs) h =
    ground (arith, last_named-drop_named n names fs h, eq_iff f.name n)

outside-diff_declared :
    (names : List String) (got ws : Schema)
    → outside names (diff_declared (by_name [] got) ws)
      ≡ diff_declared (by_name [] (drop_named names got)) (drop_named names ws)
unfolding diff_declared
outside-diff_declared names got [] = unfold outside in refl
outside-diff_declared names got (w ∷ ws) = elim (Bool-cases (contains w.name names)) [
  | inl skip ↦
      rw
        (
          outside-note_column names w (lookup w.name (by_name [] got))
              (diff_declared (by_name [] got) ws),
          skip,
        )
        (outside-diff_declared names got ws)
  | inr kept ↦
      rw
        (
          outside-note_column names w (lookup w.name (by_name [] got))
              (diff_declared (by_name [] got) ws),
          kept,
        )
        (rw (
          lookup-by_name_nil w.name got,
          lookup-by_name_nil w.name (drop_named names got),
          last_named-drop_named w.name names got kept,
          outside-diff_declared names got ws,
        ))
]

outside-undeclared :
    (names declared : List String) (got : Schema)
    → names_outside names (undeclared declared got)
      ≡ undeclared (names_outside names declared) (drop_named names got)
unfolding undeclared
outside-undeclared names declared [] = refl
outside-undeclared names declared (g ∷ gs) =
    ground (arith, outside-undeclared names declared gs, contains-outside g.name names declared)
  where
    contains-outside :
        (n : String) (names xs : List String)
        → contains n (names_outside names xs) ≡ (contains n xs && not (contains n names))
    contains-outside n names [] = refl
    contains-outside n names (x ∷ xs) = ground (arith, contains-outside n names xs, eq_iff n x)

names_of-drop_named :
    (names : List String) (fs : Schema)
    → names_of (drop_named names fs) ≡ names_outside names (names_of fs)
names_of-drop_named names [] = refl
names_of-drop_named names (f ∷ fs) = ground (arith, names_of-drop_named names fs)

-- Leaving columns out of a diff is comparing the two schemas without those columns.
pub without-diff_schema :
    (want got : Schema) (names : List String)
    → without (diff_schema want got) names
      ≡ diff_schema (drop_named names want) (drop_named names got)
unfolding diff_schema outside
without-diff_schema want got names = without-outside (diff_schema want got) names ∙ λ i.
    record (outside-diff_declared names got want i) {
      removed =
          (outside-undeclared names (names_of want) got
              ∙ ap (λ l. undeclared l (drop_named names got))
                  (sym (names_of-drop_named names want)))
            i;
    }

pub conflicts-without :
    (d : SchemaDiff) (names : List String)
    → (without d names).conflicts ≡ conflicts_outside names d.conflicts
unfolding outside
conflicts-without d names = ap (λ x. x.conflicts) (without-outside d names)
