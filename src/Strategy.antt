-- ===== src/Strategy.antt =====
-- TableState, SchemaChange and the three migration strategies of migration.go, with conflictError.
-- A strategy's `Plan` returns the change that it asks for, or an error, and the records that it logs.
pub mod Answers
pub mod Reports
use bqsink.Common.{
  ℕ, zero, suc, String, Bool, true, false, not, ◌&&◌, List, [], ◌∷◌, ◌++◌, str_eq, if◌then◌else◌,
  is_empty,
}
use bqsink.Common.Text
use bqsink.Fault.{
  Error, message, sentinel, schema_conflict, wrap, Result, ok, err, refuse_if, ◌>>=◌, ◌>>◌,
}
use bqsink.Column.{Schema, names_of}
use bqsink.Diff.{SchemaDiff, SchemaConflict, conflict_names, empty, without, mentions}

pub record TableState : Type 0 where
  pub exists : Bool
  pub diff : SchemaDiff

pub record SchemaChange : Type 0 where
  pub create_table : Bool
  pub add_columns : Schema
  pub relax_columns : List String
  pub drop_columns : List String

abbrev pub no_change : SchemaChange
no_change = record { create_table = false; add_columns = []; relax_columns = []; drop_columns = [] }

-- SchemaChange.Empty
unfoldable pub asks_nothing : SchemaChange → Bool
asks_nothing c =
    not c.create_table
    && is_empty c.add_columns
    && is_empty c.relax_columns
    && is_empty c.drop_columns

pub data Level : Type 0 where
  debug info warn : Level

-- A log record: its level, its message and the columns that its attributes name.
pub record LogRecord : Type 0 where
  pub level : Level
  pub text : String
  pub columns : List String

pub record Planned : Type 0 where
  pub answer : Result SchemaChange
  pub logged : List LogRecord

-- The interface MigrationStrategy.
abbrev pub Strategy : Type 0
Strategy = TableState → Planned

-- The wrapped text names the conflicting columns.
unfoldable pub conflict_error : List SchemaConflict → Result (Unit {0})
conflict_error [] = ok tt
conflict_error (c ∷ cs) =
    err (wrap (Text.join "; " (conflict_names (c ∷ cs))) (sentinel schema_conflict))

abbrev pub create_if : Bool → Planned
create_if create = record { answer = ok (record no_change { create_table = create }); logged = [] }

-- What a Plan method does after its conflict check: an error ends it before anything is logged.
abbrev after_check : Result (Unit {0}) → SchemaChange → List LogRecord → Planned
after_check (ok u) change logged = record { answer = ok change; logged = logged }
after_check (err e) change logged = record { answer = err e; logged = [] }

-- MigrationNone.Plan
unfoldable pub migration_none : (create_if_missing : Bool) → Strategy
unfolding conflict_error
migration_none create state =
    if not state.exists
    then create_if create
    else after_check (conflict_error state.diff.conflicts) no_change (
        if empty state.diff
        then []
        else record {
          level = warn;
          text = "the table differs from the declaration and MigrationNone leaves it as it is";
          columns = names_of state.diff.added ++ (state.diff.removed ++ state.diff.relaxed);
        }
          ∷ [])

-- AppendNewColumns.Plan
unfoldable pub append_new_columns : (create_if_missing : Bool) → Strategy
unfolding conflict_error
append_new_columns create state =
    if not state.exists
    then create_if create
    else after_check (conflict_error state.diff.conflicts)
        (record no_change { add_columns = state.diff.added; relax_columns = state.diff.relaxed })
        (if is_empty state.diff.removed
          then []
          else record {
            level = info;
            text =
                "the table has columns the declaration does not, and AppendNewColumns keeps them";
            columns = state.diff.removed;
          }
            ∷ [])

-- SyncAllColumns.Plan
unfoldable pub sync_all_columns :
    (ignore_columns : List String) (create_if_missing : Bool) → Strategy
unfolding conflict_error
sync_all_columns ignore create state =
    let diff = without state.diff ignore in
    let ignored = mentions state.diff ignore in
    if not state.exists
    then create_if create
    else after_check (conflict_error diff.conflicts)
        (record {
          create_table = false;
          add_columns = diff.added;
          relax_columns = diff.relaxed;
          drop_columns = diff.removed;
        })
        (if is_empty ignored
          then []
          else record {
            level = warn;
            text =
                "IgnoreColumns holds columns that differ from the declaration, and they are left as they are";
            columns = ignored;
          }
            ∷ [])

-- SyncAllColumns.Validate
unfoldable pub validate_ignore_columns : List String → Result (Unit {0})
validate_ignore_columns [] = ok tt
validate_ignore_columns (n ∷ ns) = do
  refuse_if (str_eq n "") (message "SyncAllColumns: an entry of IgnoreColumns is empty")
  validate_ignore_columns ns
