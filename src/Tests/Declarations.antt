-- ===== src/Tests/Declarations.antt =====
-- Declarations: a layout that tags ask for, and its merge into a table's metadata.
use bqsink.Common.{String, ◌≡◌, ◌⊎◌, refl, true, false, none, some, List, [], ◌∷◌, contains, All}
use bqsink.Fault.{ok, err, message}
use bqsink.Column.{FieldType, string_type, timestamp_type, no_columns, names_of}
use bqsink.Metadata.{day_partitioning, TimePartitioning, TableMetadata, no_metadata}
use bqsink.Declare.{
  FieldPlan, RowPlan, resolve_table_metadata, set_partitioning, set_description, set_labels,
  set_clustering, resolve_schema, check_plan_against_schema, missing_names, column_names,
}
use bqsink.Declare.Merging.{
  SaysNothing, Merges, resolve_table_metadata-Merges, resolve_schema-covers,
}
use bqsink.Layout.{
  LayoutTag, Tagged, Layout, resolve_layout, collect, note_partition, note_cluster,
  check_partition_column, check_cluster_column, partitionable, unclusterable, at_position, in_order,
}
use bqsink.Layout.Sound.{Some, Partitions, Ordered, resolve_layout-Sound}
use bqsink.Tests.Schemas.{declared}

abbrev plain_plan : String → FieldType → FieldPlan
plain_plan n t = record {
  name = n;
  field_type = t;
  required = false;
  repeated = false;
  description = "";
  nested = no_columns;
}

abbrev stamp : FieldPlan
stamp = plain_plan "timestamp" timestamp_type

abbrev untagged : LayoutTag
untagged = record { partition = none; require_filter = false; cluster = 0 }

abbrev log_columns : List Tagged
log_columns =
    record {
      tag = record { partition = some day_partitioning; require_filter = true; cluster = 0 };
      field = stamp;
    }
    ∷ record { tag = record untagged { cluster = 2 }; field = plain_plan "host" string_type }
    ∷ record { tag = untagged; field = plain_plan "note" string_type }
    ∷ record { tag = record untagged { cluster = 1 }; field = plain_plan "user" string_type }
    ∷ []

abbrev by_day : TimePartitioning
by_day = record { field = "timestamp"; granularity = day_partitioning }

abbrev log_layout : Layout
log_layout = record {
  partitioning = some by_day;
  require_filter = true;
  clustering = some ("user" ∷ "host" ∷ []);
}

lays_out : resolve_layout log_columns ≡ ok log_layout
unfolding resolve_layout collect note_partition note_cluster check_partition_column
    check_cluster_column partitionable unclusterable at_position in_order
lays_out = refl

gap :
    resolve_layout
      (record { tag = record untagged { cluster = 2 }; field = plain_plan "host" string_type } ∷ [])
    ≡ err (message "a cluster position is missing")
unfolding resolve_layout collect note_partition note_cluster check_cluster_column unclusterable
    at_position in_order
gap = refl

resolve_layout-Sound_example :
    ((p : TimePartitioning) → some by_day ≡ some p → Some (Partitions p true) log_columns)
    × ((names : List String)
        → some ("user" ∷ "host" ∷ []) ≡ some names
        → Ordered log_columns 1 names)
resolve_layout-Sound_example = resolve_layout-Sound log_columns log_layout lays_out

abbrev log_plan : RowPlan
log_plan = record {
  fields = stamp ∷ [];
  partitioning = some by_day;
  clustering = none;
  require_filter = true;
  description = "requests";
  labels = [];
}

abbrev given : TableMetadata
given = record no_metadata { labels = ("team", "data") ∷ [] }

abbrev merged : TableMetadata
merged = record given {
  time_partitioning = some by_day;
  require_partition_filter = true;
  description = "requests";
}

merges : resolve_table_metadata (some given) log_plan ≡ ok (some merged)
unfolding resolve_table_metadata set_partitioning set_description set_labels set_clustering
merges = refl

resolve_table_metadata-Merges_example :
    (SaysNothing log_plan × (some merged ≡ some given))
    ⊎ ((¬ SaysNothing log_plan)
        × (out : TableMetadata) × (some merged ≡ some out)
        × Merges given log_plan out)
resolve_table_metadata-Merges_example =
    resolve_table_metadata-Merges (some given) (some merged) log_plan merges

abbrev id_plan : List FieldPlan
id_plan = plain_plan "id" string_type ∷ []

settles : resolve_schema (some declared) id_plan ≡ ok declared
unfolding resolve_schema check_plan_against_schema missing_names column_names
settles = refl

resolve_schema-covers_example :
    ((some declared ≡ none) × (names_of declared ≡ column_names id_plan))
    ⊎ ((some declared ≡ some declared)
        × All (λ n. contains n (names_of declared) ≡ true) (column_names id_plan))
resolve_schema-covers_example = resolve_schema-covers (some declared) id_plan declared settles
