-- ===== src/Strategy/Reports.antt =====
-- What the strategies refuse, and that none lets a difference pass in silence.
use bqsink.Common.{
  String, ◌≡◌, refl, Bool, true, false, ◌||◌, List, [], ◌∷◌, ◌++◌, arith, if◌then◌else◌, is_empty,
  contains, contains-append, Option, none, some,
}
use bqsink.Fault.{schema_conflict, Result, ok, err, is}
use bqsink.Column.{names_of}
use bqsink.Diff.{SchemaDiff, conflicts_outside, empty, without, all_names, mentions}
use bqsink.Diff.Ignoring.{conflicts-without}
use bqsink.Diff.Mentions.{contains-all_names, contains-mentions, contains-without}
use bqsink.Strategy.{
  TableState, SchemaChange, no_change, LogRecord, Strategy, migration_none, append_new_columns,
  sync_all_columns,
}
use bqsink.Strategy.Answers.{append-answer, sync-answer}

-- The columns that a change acts on.
abbrev pub acted : SchemaChange → List String
acted c = names_of c.add_columns ++ (c.relax_columns ++ c.drop_columns)

abbrev pub logged_names : List LogRecord → List String
logged_names [] = []
logged_names (r ∷ rs) = r.columns ++ logged_names rs

abbrev pub on_table : SchemaDiff → TableState
on_table d = record { exists = true; diff = d }

-- A successful plan for an existing table mentions every column that differs.
abbrev pub Accounts : Strategy → SchemaDiff → Type 0
Accounts plan d =
    (x : String) (change : SchemaChange)
    → (plan (on_table d)).answer ≡ ok change
    → contains x (all_names d) ≡ true
    → (contains x (acted change) || contains x (logged_names (plan (on_table d)).logged)) ≡ true

none-Accounts : (create : Bool) (d : SchemaDiff) → Accounts (migration_none create) d
unfolding migration_none empty
none-Accounts create d x change h c = ground (
  arith,
  contains-all_names x d,
  contains-append x (names_of d.added) (d.removed ++ d.relaxed),
  contains-append x d.removed d.relaxed,
  contains-append x (names_of d.added ++ (d.removed ++ d.relaxed)) [],
)

append-Accounts : (create : Bool) (d : SchemaDiff) → Accounts (append_new_columns create) d
append-Accounts create d x change h c =
    let (k, e) = append-answer create d h in
    rw e (
      unfold append_new_columns in
      ground (
        arith,
        contains-all_names x d,
        contains-append x (names_of d.added) (d.relaxed ++ []),
        contains-append x d.relaxed [],
        contains-append x d.removed [],
      ))

sync-Accounts :
    (ignore : List String) (create : Bool) (d : SchemaDiff)
    → Accounts (sync_all_columns ignore create) d
sync-Accounts ignore create d x change h c =
    let (k, e) = sync-answer ignore create d h in
    let left = without d ignore in
    rw e (
      unfold sync_all_columns in
      ground (
        arith,
        contains-mentions x d ignore,
        contains-without x d ignore,
        contains-all_names x left,
        contains-append x (names_of left.added) (left.relaxed ++ left.removed),
        contains-append x left.relaxed left.removed,
        contains-append x (mentions d ignore) [],
      ))

-- For each of the three strategies and any difference between the declaration and an existing table:
-- if the plan succeeds, each column that the difference names is acted on by the change that the plan
-- asks for, or named in a record that it logs.
pub plans-Accounts :
    (ignore : List String) (create : Bool) (d : SchemaDiff)
    → Accounts (migration_none create) d
      × Accounts (append_new_columns create) d
      × Accounts (sync_all_columns ignore create) d
plans-Accounts ignore create d =
    (none-Accounts create d, append-Accounts create d, sync-Accounts ignore create d)

-- Nothing for a plan, and for a refusal whether its error is ErrSchemaConflict.
abbrev refusal : Result SchemaChange → Option Bool
refusal (ok c) = none
refusal (err e) = some (is schema_conflict e)

abbrev missing : SchemaDiff → TableState
missing d = record { exists = false; diff = d }

abbrev pub PlansRefusal : List String → Bool → SchemaDiff → Type 0
PlansRefusal ignore create d =
    ((migration_none create (missing d)).answer ≡ ok (record no_change { create_table = create }))
    × ((append_new_columns create (missing d)).answer
        ≡ ok (record no_change { create_table = create }))
    × ((sync_all_columns ignore create (missing d)).answer
        ≡ ok (record no_change { create_table = create }))
    × (refusal (migration_none create (on_table d)).answer
        ≡ (if is_empty d.conflicts then none else some true))
    × (refusal (append_new_columns create (on_table d)).answer
        ≡ (if is_empty d.conflicts then none else some true))
    × (refusal (sync_all_columns ignore create (on_table d)).answer
        ≡ (if is_empty (conflicts_outside ignore d.conflicts) then none else some true))

-- A missing table is never a refusal: the change asks for the table as the setting says, and for no
-- more. On an existing table MigrationNone and AppendNewColumns refuse exactly if some column is in
-- conflict, SyncAllColumns exactly if a column outside IgnoreColumns is, and the error is then
-- ErrSchemaConflict.
pub plans-refusal :
    (ignore : List String) (create : Bool) (d : SchemaDiff) → PlansRefusal ignore create d
unfolding migration_none append_new_columns sync_all_columns is
plans-refusal ignore create d =
    (refl, refl, refl, ground arith, ground arith, rw (conflicts-without d ignore) (ground arith))
