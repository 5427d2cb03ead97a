-- ===== src/Tests/Schemas.antt =====
-- Schemas that the tests share, and comparisons of them.
use bqsink.Common.{
  String, ◌≡◌, ◌↔◌, refl, Bool, true, false, [], ◌∷◌, ◌&&◌, not, contains, Distinct,
}
use bqsink.Column.{
  FieldType, string_type, integer_type, record_type, Nested, no_columns, column, FieldSchema,
  Schema, type_eq,
}
use bqsink.Diff.{
  SchemaDiff, conflict_repeated, conflict_between, same_nested_schema, empty, diff_schema, without,
  mentions,
}
use bqsink.Diff.Agree.{Agree, diff_schema-empty_iff}
use bqsink.Diff.Ignoring.{drop_named, without-diff_schema}
use bqsink.Diff.Mentions.{is_named, mentions-without}
use bqsink.Strategy.{migration_none, append_new_columns, sync_all_columns}
use bqsink.Strategy.Reports.{Accounts, plans-Accounts, PlansRefusal, plans-refusal}

abbrev pub plain : String → FieldType → Bool → FieldSchema
plain n t required = record {
  name = n;
  field_type = t;
  repeated = false;
  required = required;
  description = "";
  scale = 0;
  schema = no_columns;
}

abbrev pub detail : Nested
detail =
    column "code" integer_type false true "" 0 no_columns
      (column "note" string_type false false "" 0 no_columns no_columns)

abbrev pub swapped : Nested
swapped =
    column "note" string_type false false "" 0 no_columns
      (column "code" integer_type false true "" 0 no_columns no_columns)

abbrev pub nested : Nested → FieldSchema
nested sub = record {
  name = "detail";
  field_type = record_type;
  repeated = false;
  required = false;
  description = "";
  scale = 0;
  schema = sub;
}

abbrev pub declared : Schema
declared = plain "id" string_type false ∷ plain "n" integer_type false ∷ nested detail ∷ []

-- The table requires `id`, lacks `n`, has `old` besides and orders the RECORD's fields otherwise.
abbrev pub real : Schema
real = plain "id" string_type true ∷ nested swapped ∷ plain "old" string_type false ∷ []

diff_tests :
    (diff_schema declared real ≡ record {
      added = plain "n" integer_type false ∷ [];
      removed = "old" ∷ [];
      relaxed = "id" ∷ [];
      conflicts = [];
    })
    × (mentions (diff_schema declared real) ("x" ∷ "old" ∷ "id" ∷ []) ≡ "old" ∷ "id" ∷ [])
    × (empty (without (diff_schema declared real) ("old" ∷ "id" ∷ "n" ∷ [])) ≡ true)
unfolding diff_schema conflict_between same_nested_schema type_eq empty without mentions
diff_tests = (refl, refl, refl)

diff_schema-empty_iff_example :
    (empty (diff_schema declared declared) ≡ true) ↔ Agree declared declared
diff_schema-empty_iff_example = diff_schema-empty_iff declared declared

without-diff_schema_example :
    without (diff_schema declared real) ("old" ∷ [])
    ≡ diff_schema (drop_named ("old" ∷ []) declared) (drop_named ("old" ∷ []) real)
without-diff_schema_example = without-diff_schema declared real ("old" ∷ [])

mentions-without_example :
    Distinct (mentions (diff_schema declared real) ("old" ∷ "id" ∷ []))
    × ((x : String)
        → contains x (mentions (diff_schema declared real) ("old" ∷ "id" ∷ []))
          ≡ (is_named x (diff_schema declared real) && contains x ("old" ∷ "id" ∷ [])))
    × ((x : String)
        → is_named x (without (diff_schema declared real) ("old" ∷ "id" ∷ []))
          ≡ (is_named x (diff_schema declared real) && not (contains x ("old" ∷ "id" ∷ []))))
mentions-without_example = mentions-without (diff_schema declared real) ("old" ∷ "id" ∷ [])

plans-Accounts_example :
    Accounts (migration_none true) (diff_schema declared real)
    × Accounts (append_new_columns true) (diff_schema declared real)
    × Accounts (sync_all_columns ("old" ∷ []) true) (diff_schema declared real)
plans-Accounts_example = plans-Accounts ("old" ∷ []) true (diff_schema declared real)

-- A table that stores `n` repeated is in conflict with the declaration.
abbrev repeated_n : FieldSchema
repeated_n = record (plain "n" integer_type false) { repeated = true }

abbrev conflicting : SchemaDiff
conflicting = record {
  added = [];
  removed = [];
  relaxed = [];
  conflicts =
      record {
        name = "n";
        reason = conflict_repeated;
        want = plain "n" integer_type false;
        got = repeated_n;
      }
      ∷ [];
}

plans-refusal_example : PlansRefusal ("n" ∷ []) true conflicting
plans-refusal_example = plans-refusal ("n" ∷ []) true conflicting
