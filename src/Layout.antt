-- ===== src/Layout.antt =====
-- rowPlan.resolveLayout, checkPartitionColumn and checkClusterColumn of plan.go: the partitioning and
-- the clustering that the columns' tags ask for. `byPosition` is a list of positions and names.
pub mod Sound
use bqsink.Common.{
  ℕ, zero, suc, ◌+◌, String, Bool, true, false, ◌&&◌, Option, none, some, List, [], ◌∷◌, ◌==◌,
  is_empty, length, if◌then◌else◌,
}
use bqsink.Fault.{Error, message, Result, ok, err, refuse_if, ◌>>=◌, ◌>>◌}
use bqsink.Column.{
  FieldType, timestamp_type, date_type, datetime_type, float_type, json_type, bytes_type,
  record_type,
}
use bqsink.Metadata.{PartitioningType, hour_partitioning, TimePartitioning}
use bqsink.Declare.{FieldPlan}

-- The parts of a fieldTag that describe the table; a cluster position of 0 is none.
pub record LayoutTag : Type 0 where
  pub partition : Option PartitioningType
  pub require_filter : Bool
  pub cluster : ℕ

-- A column with its tag.
pub record Tagged : Type 0 where
  pub tag : LayoutTag
  pub field : FieldPlan

unfoldable pub partitionable : FieldType → Bool
partitionable timestamp_type = true
partitionable date_type = true
partitionable datetime_type = true
partitionable _ = false

unfoldable pub unclusterable : FieldType → Bool
unclusterable float_type = true
unclusterable json_type = true
unclusterable bytes_type = true
unclusterable record_type = true
unclusterable _ = false

abbrev pub hourly : PartitioningType → Bool
hourly hour_partitioning = true
hourly _ = false

abbrev pub is_date : FieldType → Bool
is_date date_type = true
is_date _ = false

unfoldable pub check_partition_column : FieldPlan → PartitioningType → Result (Unit {0})
check_partition_column f g =
    if partitionable f.field_type
    then (if f.repeated
        then err (message "a repeated column cannot be a partitioning column")
        else if hourly g && is_date f.field_type
        then err (message "a DATE column cannot be partitioned by hour")
        else ok tt)
    else err (message "partitioning needs TIMESTAMP, DATE or DATETIME")

unfoldable pub check_cluster_column : FieldPlan → Result (Unit {0})
check_cluster_column f =
    if unclusterable f.field_type
    then err (message "BigQuery cannot cluster on a column of this type")
    else if f.repeated
    then err (message "BigQuery cannot cluster on a repeated column")
    else ok tt

-- What the loop over the columns has collected.
pub record Collected : Type 0 where
  pub partitioning : Option TimePartitioning
  pub require_filter : Bool
  pub by_position : List (ℕ × String)

unfoldable pub at_position : ℕ → List (ℕ × String) → Option String
at_position p [] = none
at_position p ((q, name) ∷ rest) = if p == q then some name else at_position p rest

unfoldable pub note_partition : Tagged → Collected → Result Collected
note_partition c l = elim c.tag.partition [
  | none ↦ ok l
  | some g ↦ elim l.partitioning [
    | some p ↦ err (message "two columns both carry the partition tag")
    | none ↦ elim (check_partition_column c.field g) [
      | err e ↦ err e
      | ok u ↦ ok (record l {
        partitioning = some (record { field = c.field.name; granularity = g });
        require_filter = c.tag.require_filter;
      })
    ]
  ]
]

unfoldable pub note_cluster : Tagged → Collected → Result Collected
note_cluster c l =
    if c.tag.cluster == 0 then ok l else elim (at_position c.tag.cluster l.by_position) [
      | some other ↦ err (message "two columns both claim a cluster position")
      | none ↦ elim (check_cluster_column c.field) [
        | err e ↦ err e
        | ok u ↦ ok (record l { by_position = (c.tag.cluster, c.field.name) ∷ l.by_position })
      ]
    ]

unfoldable pub collect : List Tagged → Collected → Result Collected
collect [] l = ok l
collect (c ∷ cs) l = do l ← note_partition c l; l ← note_cluster c l; collect cs l

-- The names at `n` positions from `p` on, none of which may be missing.
unfoldable pub in_order : (n p : ℕ) → List (ℕ × String) → Result (List String)
in_order zero p names = ok []
in_order (suc n) p names = elim (at_position p names) [
  | none ↦ err (message "a cluster position is missing")
  | some name ↦ elim (in_order n (p + 1) names) [ ok rest ↦ ok (name ∷ rest) | err e ↦ err e ]
]

pub record Layout : Type 0 where
  pub partitioning : Option TimePartitioning
  pub require_filter : Bool
  pub clustering : Option (List String)

abbrev finish : Collected → Result Layout
finish l =
    if is_empty l.by_position
    then ok (record {
      partitioning = l.partitioning;
      require_filter = l.require_filter;
      clustering = none;
    })
    else elim (in_order (length l.by_position) 1 l.by_position) [
      | err e ↦ err e
      | ok fields ↦ ok (record {
        partitioning = l.partitioning;
        require_filter = l.require_filter;
        clustering = some fields;
      })
    ]

unfoldable pub resolve_layout : List Tagged → Result Layout
resolve_layout cs = do
  l ← collect cs (record { partitioning = none; require_filter = false; by_position = [] })
  finish l
