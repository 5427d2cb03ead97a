-- ===== src/Diff.antt =====
-- How a declared schema differs from a table's: ConflictReason, SchemaConflict, SchemaDiff,
-- DiffSchema, conflictBetween, sameNestedSchema, Without and mentions of migration.go.
pub mod Lookup
pub mod Agree
pub mod Classes
pub mod Ignoring
pub mod Mentions
pub mod Nesting
pub mod Inside
use bqsink.Common.{
  String, Bool, true, false, not, ◌&&◌, Option, none, some, List, [], ◌∷◌, ◌++◌, map, ◌==◌, str_eq,
  bool_eq, if◌then◌else◌, length, is_empty, contains, keep_if,
}
use bqsink.Common.Assoc.{Assoc, insert, lookup}
use bqsink.Column.{
  FieldType, record_type, type_eq, Nested, no_columns, column, FieldSchema, Schema, columns,
  names_of,
}

pub data ConflictReason : Type 0 where
  conflict_type conflict_repeated conflict_required conflict_nested : ConflictReason

pub record SchemaConflict : Type 0 where
  pub name : String
  pub reason : ConflictReason
  pub want : FieldSchema
  pub got : FieldSchema

pub record SchemaDiff : Type 0 where
  pub added : Schema
  pub removed : List String
  pub relaxed : List String
  pub conflicts : List SchemaConflict

abbrev pub no_diff : SchemaDiff
no_diff = record { added = []; removed = []; relaxed = []; conflicts = [] }

abbrev pub conflict_names : List SchemaConflict → List String
conflict_names [] = []
conflict_names (c ∷ cs) = c.name ∷ conflict_names cs

-- SchemaDiff.Empty
unfoldable pub empty : SchemaDiff → Bool
empty d = is_empty d.added && is_empty d.removed && is_empty d.relaxed && is_empty d.conflicts

-- for _, f := range got { inTable[f.Name] = f }
unfoldable pub by_name : Assoc FieldSchema → Schema → Assoc FieldSchema
by_name m [] = m
by_name m (f ∷ fs) = by_name (insert f.name f m) fs

-- The checks on one declared field of a RECORD against the table's field of that name; `nested` is
-- the verdict on what the two hold inside.
abbrev same_field : FieldType → Bool → Bool → FieldSchema → Bool → Bool
same_field t rep req g nested =
    type_eq t g.field_type
    && bool_eq rep g.repeated
    && bool_eq req g.required
    && (if type_eq t record_type then nested else true)

abbrev same_found : FieldType → Bool → Bool → Option FieldSchema → (FieldSchema → Bool) → Bool
same_found t rep req none nested = false
same_found t rep req (some g) nested = same_field t rep req g (nested g)

-- The loop of sameNestedSchema over `want`; the recursive call is preceded by its length test.
pub same_columns : Nested → Schema → Bool
same_columns no_columns got = true
same_columns (column n t rep req d s sub rest) got =
    same_found t rep req (lookup n (by_name [] got)) (λ g.
      (length (columns sub) == length (columns g.schema)) && same_columns sub (columns g.schema))
    && same_columns rest got

unfoldable pub same_nested_schema : Nested → Nested → Bool
unfolding same_columns by_name
same_nested_schema want got =
    (length (columns want) == length (columns got)) && same_columns want (columns got)

unfoldable pub conflict_between : FieldSchema → FieldSchema → Option ConflictReason
conflict_between w g =
    if not (type_eq w.field_type g.field_type)
    then some conflict_type
    else if not (bool_eq w.repeated g.repeated)
    then some conflict_repeated
    else if w.required && not g.required
    then some conflict_required
    else if type_eq w.field_type record_type && not (same_nested_schema w.schema g.schema)
    then some conflict_nested
    else none

-- The body of DiffSchema's first loop for a column that the table has, over the rest of the loop.
abbrev note_conflict : FieldSchema → FieldSchema → Option ConflictReason → SchemaDiff → SchemaDiff
note_conflict w g (some r) d = record d {
  conflicts = record { name = w.name; reason = r; want = w; got = g } ∷ d.conflicts;
}
note_conflict w g none d =
    if not w.required && g.required then record d { relaxed = w.name ∷ d.relaxed } else d

abbrev note_column : FieldSchema → Option FieldSchema → SchemaDiff → SchemaDiff
note_column w none d = record d { added = w ∷ d.added }
note_column w (some g) d = note_conflict w g (conflict_between w g) d

-- The first loop: what it appends stands in the order of `want`.
pub diff_declared : Assoc FieldSchema → Schema → SchemaDiff
diff_declared in_table [] = no_diff
diff_declared in_table (w ∷ ws) = note_column w (lookup w.name in_table) (diff_declared in_table ws)

-- The second loop: the names that the declaration lacks.
unfoldable pub undeclared : List String → Schema → List String
undeclared declared [] = []
undeclared declared (g ∷ gs) =
    let rest = undeclared declared gs in if contains g.name declared then rest else g.name ∷ rest

unfoldable pub diff_schema : Schema → Schema → SchemaDiff
unfolding diff_declared undeclared by_name
diff_schema want got = record (diff_declared (by_name [] got) want) {
  removed = undeclared (names_of want) got;
}

abbrev pub conflicts_outside : List String → List SchemaConflict → List SchemaConflict
conflicts_outside names = keep_if (λ c. not (contains c.name names))

-- SchemaDiff.Without
unfoldable pub without : SchemaDiff → List String → SchemaDiff
without d [] = d
without d (n ∷ ns) = record {
  added = keep_if (λ f. not (contains f.name (n ∷ ns))) d.added;
  removed = keep_if (λ x. not (contains x (n ∷ ns))) d.removed;
  relaxed = keep_if (λ x. not (contains x (n ∷ ns))) d.relaxed;
  conflicts = conflicts_outside (n ∷ ns) d.conflicts;
}

-- Every name that the diff holds, in the order in which `mentions` visits them.
unfoldable pub all_names : SchemaDiff → List String
all_names d = names_of d.added ++ (d.removed ++ (d.relaxed ++ conflict_names d.conflicts))

-- The closure `add`: a name of the list that was not seen yet is taken. `out` holds what was seen.
unfoldable pub visit : List String → List String → List String → List String
visit names out [] = out
visit names out (x ∷ xs) =
    visit names (if contains x names && not (contains x out) then out ++ x ∷ [] else out) xs

-- SchemaDiff.mentions
unfoldable pub mentions : SchemaDiff → List String → List String
unfolding visit all_names
mentions d [] = []
mentions d (n ∷ ns) = visit (n ∷ ns) [] (all_names d)
