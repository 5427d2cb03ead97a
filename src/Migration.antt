-- ===== src/Migration.antt =====
-- Sinker.migrate and what it calls, of migration.go: apply, createTable, newTableMetadata,
-- patchSchema, dropColumns, checkColumnName and isNotFound. The table, the query runner and the
-- logger are a record of calls on a world.
pub mod Statement
pub mod Reconciles
pub mod Settled
use Prim.Native.String
use bqsink.Common.{
  ℕ, String, Bool, true, false, not, ◌&&◌, ◌||◌, Option, none, some, List, [], ◌∷◌, ◌++◌, ◌==◌, leb,
  str_eq, if◌then◌else◌, is_empty,
}
use bqsink.Common.Text
use bqsink.Common.Text.{codes}
use bqsink.Fault.{
  Error, message, sentinel, schema_conflict, table_missing, wrap, Result, ok, err, as_api,
}
use bqsink.Exec.{Exec, pure, fail, lift, wrapping, ◌>>=◌, ◌>>◌}
use bqsink.Relation.{Relation, quoted}
use bqsink.Column.{Schema, names_of}
use bqsink.Metadata.{TableMetadata, no_metadata, clear_read_only}
use bqsink.Diff.{no_diff, diff_schema, conflict_names}
use bqsink.Strategy.{
  TableState, SchemaChange, asks_nothing, Strategy, Planned, LogRecord, debug, info, warn,
}
use bqsink.Merge.{merge_schema, required_names}

-- tableAPI, queryRunner and the logger
pub record Table (W : Type 0) : Type 0 where
  pub metadata : Exec W TableMetadata
  -- the new schema and the ETag that the table has to have
  pub update : Schema → String → Exec W (Unit {0})
  pub create : TableMetadata → Exec W (Unit {0})
  pub run : String → Exec W (Unit {0})
  pub log : LogRecord → W → W

-- The fields of a Sinker that the migration reads.
pub record Target (W : Type 0) : Type 0 where
  pub table : Table W
  pub open table use *
  pub relation : Relation
  pub strategy : Strategy
  pub schema : Schema
  pub declared : Option TableMetadata

unfoldable pub is_not_found : Error → Bool
is_not_found e = elim (as_api e) [ none ↦ false | some c ↦ c == 404 ]

is_word : ℕ → Bool
is_word c =
    (leb b'a' c && leb c b'z')
    || (leb b'A' c && leb c b'Z')
    || (leb b'0' c && leb c b'9')
    || (c == b'_')

all_words : List ℕ → Bool
all_words [] = true
all_words (c ∷ cs) = is_word c && all_words cs

unfoldable pub check_column_name : String → Result (Unit {0})
unfolding all_words is_word
check_column_name name =
    if str_eq name ""
    then err (message "a column name is empty")
    else if all_words (codes name)
    then ok tt
    else err (message "a column name contains what BigQuery does not allow")

-- The loop of dropColumns: a clause for each name, or the refusal of the first bad name.
unfoldable pub drop_clauses : List String → Result (List String)
drop_clauses [] = ok []
drop_clauses (n ∷ ns) = elim (check_column_name n) [
  | ok u ↦ elim (drop_clauses ns) [
    | ok rest ↦ ok (String.◌++◌ "DROP COLUMN `" (String.◌++◌ n "`") ∷ rest)
    | err e ↦ err e
  ]
  | err e ↦ err (wrap "bqsink: refusing to drop" e)
]

unfoldable pub statement : Relation → List String → String
statement r clauses =
    String.◌++◌ "ALTER TABLE " (String.◌++◌ (quoted r) (String.◌++◌ " " (Text.join ", " clauses)))

module _ {W : Type 0} (s : Target W) where
  abbrev pub logging : LogRecord → Exec W (Unit {0})
  logging r w = (ok tt, s.log r w)

  unfoldable pub drop_columns : List String → Exec W (Unit {0})
  drop_columns names = do
    clauses ← lift (drop_clauses names)
    wrapping "bqsink: drop columns" (s.run (statement s.relation clauses))
    logging (record {
      level = warn;
      text = "dropped columns, and the data they held is gone";
      columns = names;
    })

  unfoldable pub patch_schema : TableMetadata → SchemaChange → Exec W (Unit {0})
  patch_schema md change =
      if is_empty change.add_columns && is_empty change.relax_columns
      then pure tt
      else if not (is_empty (required_names change.add_columns))
      then fail
          (wrap "cannot add REQUIRED columns to the existing table" (sentinel schema_conflict))
      else do
        wrapping "bqsink: update schema" (s.update (merge_schema md.schema change) md.etag)
        logging (record {
          level = info;
          text = "brought the table's schema up to the declaration";
          columns = names_of change.add_columns ++ change.relax_columns;
        })

  unfoldable pub new_table_metadata : TableMetadata
  new_table_metadata =
      let base : TableMetadata = elim s.declared [ none ↦ no_metadata | some md ↦ md ] in
      clear_read_only (record base { schema = s.schema })

  unfoldable pub create_table : Exec W (Unit {0})
  unfolding new_table_metadata
  create_table = do
    wrapping "bqsink: create" (s.create new_table_metadata)
    logging (record { level = info; text = "created the table"; columns = names_of s.schema })

  unfoldable pub apply : Option TableMetadata → SchemaChange → Exec W (Unit {0})
  apply none change =
      if change.create_table then create_table else fail (wrap "bqsink" (sentinel table_missing))
  apply (some md) change =
      if asks_nothing change
      then logging (record { level = debug; text = "the table needs no change"; columns = [] })
      else do
        patch_schema md change
        if is_empty change.drop_columns then pure tt else drop_columns change.drop_columns

  log_all : List LogRecord → Exec W (Unit {0})
  log_all [] = pure tt
  log_all (r ∷ rs) = do logging r; log_all rs

  -- strategy.Plan(state, logger), then apply
  unfoldable pub plan_and_apply : Option TableMetadata → TableState → Exec W (Unit {0})
  unfolding log_all
  plan_and_apply md state = do
    log_all (s.strategy state).logged
    change ← wrapping "bqsink: migrate" (lift (s.strategy state).answer)
    apply md change

  -- the switch of migrate over what reading the table's metadata gave
  unfoldable pub on_metadata : Result TableMetadata → Exec W (Unit {0})
  on_metadata (ok md) =
      let diff = diff_schema s.schema md.schema in
      do
        logging (record {
          level = debug;
          text = "compared the declaration with the table";
          columns = names_of diff.added ++ (diff.removed ++ diff.relaxed);
        })
        plan_and_apply (some md) (record { exists = true; diff = diff })
  on_metadata (err e) =
      if is_not_found e
      then (do
        logging (record { level = debug; text = "the table does not exist yet"; columns = [] })
        plan_and_apply none (record { exists = false; diff = no_diff }))
      else fail (wrap "bqsink: read metadata" e)

  unfoldable pub migrate : Exec W (Unit {0})
  migrate w = let (r, w') = s.metadata w in on_metadata r w'
