-- ===== src/Metadata.antt =====
-- `bigquery.TableMetadata`, the fields of it that the source reads or writes, and
-- clearReadOnlyTableMetadata of migration.go. What the source only passes on is an opaque number.
use bqsink.Common.{ℕ, String, Bool, Option, none, List}
use bqsink.Common.Assoc.{Assoc}
use bqsink.Column.{Schema}

pub data PartitioningType : Type 0 where
  day_partitioning hour_partitioning month_partitioning year_partitioning : PartitioningType

pub record TimePartitioning : Type 0 where
  pub field : String
  pub granularity : PartitioningType

pub record TableMetadata : Type 0 where
  pub schema : Schema
  pub description : String
  pub labels : Assoc String
  pub time_partitioning : Option TimePartitioning
  pub range_partitioning : Option ℕ
  pub require_partition_filter : Bool
  pub clustering : Option (List String)
  -- what else a declaration may set, such as an expiration
  pub settings : ℕ
  -- the fields that BigQuery fills in
  pub etag : String
  pub full_id : String
  pub table_type : String
  pub creation_time : ℕ
  pub last_modified_time : ℕ
  pub num_bytes : ℕ
  pub num_long_term_bytes : ℕ
  pub num_rows : ℕ
  pub snapshot_definition : Option ℕ
  pub clone_definition : Option ℕ
  pub streaming_buffer : Option ℕ

-- &bigquery.TableMetadata{}
abbrev pub no_metadata : TableMetadata
no_metadata = record {
  schema = List.[];
  description = "";
  labels = List.[];
  time_partitioning = none;
  range_partitioning = none;
  require_partition_filter = Bool.false;
  clustering = none;
  settings = 0;
  etag = "";
  full_id = "";
  table_type = "";
  creation_time = 0;
  last_modified_time = 0;
  num_bytes = 0;
  num_long_term_bytes = 0;
  num_rows = 0;
  snapshot_definition = none;
  clone_definition = none;
  streaming_buffer = none;
}

unfoldable pub clear_read_only : TableMetadata → TableMetadata
clear_read_only md = record md {
  full_id = "";
  table_type = "";
  creation_time = 0;
  last_modified_time = 0;
  num_bytes = 0;
  num_long_term_bytes = 0;
  num_rows = 0;
  snapshot_definition = none;
  clone_definition = none;
  streaming_buffer = none;
  etag = "";
}
