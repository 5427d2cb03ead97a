-- ===== src/Declare.antt =====
-- What a declaration comes to: resolveSchema, resolveTableMetadata and checkPlanAgainstSchema of
-- bqsink.go, over the parts of a rowPlan of plan.go that describe the table.
pub mod Merging
use bqsink.Common.{
  ℕ, String, Bool, true, false, not, ◌&&◌, ◌||◌, Option, none, some, List, [], ◌∷◌, str_eq,
  is_empty, contains, if◌then◌else◌,
}
use bqsink.Common.Assoc.{Assoc}
use bqsink.Fault.{Error, message, Result, ok, err, refuse_if, ◌>>=◌, ◌>>◌}
use bqsink.Column.{FieldType, Nested, FieldSchema, Schema, names_of}
use bqsink.Metadata.{TimePartitioning, TableMetadata, no_metadata}

-- fieldPlan, the parts of it that a schema shows; `nested` is the schema of the nested plan.
pub record FieldPlan : Type 0 where
  pub name : String
  pub field_type : FieldType
  pub required : Bool
  pub repeated : Bool
  pub description : String
  pub nested : Nested

pub record RowPlan : Type 0 where
  pub fields : List FieldPlan
  pub partitioning : Option TimePartitioning
  pub clustering : Option (List String)
  pub require_filter : Bool
  pub description : String
  pub labels : Assoc String

-- rowPlan.schema
unfoldable pub plan_schema : List FieldPlan → Schema
plan_schema [] = []
plan_schema (f ∷ fs) =
    record {
      name = f.name;
      field_type = f.field_type;
      repeated = f.repeated;
      required = f.required;
      description = f.description;
      scale = 0;
      schema = f.nested;
    }
    ∷ plan_schema fs

-- rowPlan.columnNames
unfoldable pub column_names : List FieldPlan → List String
column_names [] = []
column_names (f ∷ fs) = f.name ∷ column_names fs

-- The names that a declared schema lacks.
unfoldable pub missing_names : List String → Schema → List String
missing_names [] schema = []
missing_names (n ∷ ns) schema =
    let rest = missing_names ns schema in if contains n (names_of schema) then rest else n ∷ rest

unfoldable pub check_plan_against_schema : List FieldPlan → Schema → Result (Unit {0})
check_plan_against_schema fields schema =
    if is_empty (missing_names (column_names fields) schema)
    then ok tt
    else err (message "bqsink: the declared schema has no column for a field")

-- The metadata's schema; BigQuery's nil schema is `none`.
unfoldable pub resolve_schema : Option Schema → List FieldPlan → Result Schema
resolve_schema none fields = ok (plan_schema fields)
resolve_schema (some declared) fields = do check_plan_against_schema fields declared; ok declared

abbrev is_some {ℓ} : {A : Type ℓ} → Option A → Bool
is_some none = false
is_some (some a) = true

abbrev twice : String → Error
twice what = message what

unfoldable pub set_partitioning : RowPlan → TableMetadata → Result TableMetadata
set_partitioning plan out = elim plan.partitioning [
  | none ↦ ok out
  | some p ↦
      if is_some out.time_partitioning
      then err (twice "bqsink: the table metadata already sets TimePartitioning")
      else if is_some out.range_partitioning
      then err (twice "bqsink: the table metadata already sets RangePartitioning")
      else ok (record out {
        time_partitioning = some p;
        require_partition_filter = plan.require_filter || out.require_partition_filter;
      })
]

unfoldable pub set_description : RowPlan → TableMetadata → Result TableMetadata
set_description plan out =
    if str_eq plan.description ""
    then ok out
    else if not (str_eq out.description "")
    then err (twice "bqsink: the table metadata already sets Description")
    else ok (record out { description = plan.description })

unfoldable pub set_labels : RowPlan → TableMetadata → Result TableMetadata
set_labels plan out =
    if is_empty plan.labels
    then ok out
    else if not (is_empty out.labels)
    then err (twice "bqsink: the table metadata already sets Labels")
    else ok (record out { labels = plan.labels })

unfoldable pub set_clustering : RowPlan → TableMetadata → Result TableMetadata
set_clustering plan out = elim plan.clustering [
  | none ↦ ok out
  | some fields ↦
      if is_some out.clustering
      then err (twice "bqsink: the table metadata already sets Clustering")
      else ok (record out { clustering = some fields })
]

abbrev pub or_empty : Option TableMetadata → TableMetadata
or_empty none = no_metadata
or_empty (some md) = md

-- The plan says nothing of the table.
abbrev pub says_nothing : RowPlan → Bool
says_nothing plan =
    not (is_some plan.partitioning)
    && not (is_some plan.clustering)
    && str_eq plan.description ""
    && is_empty plan.labels

unfoldable pub resolve_table_metadata :
    Option TableMetadata → RowPlan → Result (Option TableMetadata)
resolve_table_metadata md plan = if says_nothing plan then ok md else do
  out ← set_partitioning plan (or_empty md)
  out ← set_description plan out
  out ← set_labels plan out
  out ← set_clustering plan out
  ok (some out)
