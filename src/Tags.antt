-- ===== src/Tags.antt =====
-- The struct tags of schema.go: parseLabels, parseTag, parsePartition and parseFieldTags. A field's
-- tag is the function that looks its keys up; strconv.Atoi and strings.ToLower are parameters, and a
-- negative number that Atoi reads stands as 0, which is out of range as it is. An empty option does
-- nothing, so the options are the parts between the commas, an empty last one included.
pub mod Labels
pub mod Consistent
use bqsink.Common.{
  ℕ, String, Bool, true, false, not, ◌&&◌, ◌||◌, Option, none, some, List, [], ◌∷◌, ◌++◌, str_eq,
  leb, if◌then◌else◌,
}
use bqsink.Common.Text.{split, cut}
use bqsink.Common.Assoc.{Assoc, lookup}
use bqsink.Fault.{Error, message, Result, ok, err, refuse_if, ◌>>=◌, ◌>>◌}
use bqsink.Metadata.{
  PartitioningType, day_partitioning, hour_partitioning, month_partitioning, year_partitioning,
}

abbrev taken : Option String → Bool
taken none = false
taken (some v) = true

-- The loop of parseLabels over the pairs.
unfoldable pub read_labels : List String → Assoc String → Result (Assoc String)
read_labels [] labels = ok labels
read_labels (pair ∷ pairs) labels =
    let parts = cut b'=' pair in
    let rest = read_labels pairs (labels ++ (parts.0, parts.1) ∷ []) in
    if not parts.2
    then err (message "the labels tag holds a pair that is not key=value")
    else if str_eq parts.0 ""
    then err (message "the labels tag holds a pair whose key is empty")
    else if taken (lookup parts.0 labels)
    then err (message "the labels tag names a key twice")
    else rest

unfoldable pub parse_labels : String → Result (Assoc String)
parse_labels v = read_labels (split b',' v) []

pub record FieldTag : Type 0 where
  pub name : String
  pub required : Bool
  pub null_if_zero : Bool
  pub is_record : Bool
  pub skip : Bool
  pub time_type : String
  pub partition : Option PartitioningType
  pub require_filter : Bool
  pub cluster : ℕ
  pub description : String

abbrev pub no_tag : FieldTag
no_tag = record {
  name = "";
  required = false;
  null_if_zero = false;
  is_record = false;
  skip = false;
  time_type = "";
  partition = none;
  require_filter = false;
  cluster = 0;
  description = "";
}

-- The keys of timeColumnTypes.
unfoldable pub is_time_option : String → Bool
is_time_option opt = str_eq opt "date" || str_eq opt "datetime" || str_eq opt "time"

unfoldable pub read_option : String → FieldTag → Result FieldTag
read_option opt tag =
    if str_eq opt ""
    then ok tag
    else if str_eq opt "required"
    then ok (record tag { required = true })
    else if str_eq opt "nullifzero"
    then ok (record tag { null_if_zero = true })
    else if str_eq opt "record"
    then ok (record tag { is_record = true })
    else if not (is_time_option opt)
    then err (message "unknown tag option")
    else if not (str_eq tag.time_type "")
    then err (message "two time options conflict: a column has one type")
    else ok (record tag { time_type = opt })

unfoldable pub read_options : List String → FieldTag → Result FieldTag
read_options [] tag = ok tag
read_options (o ∷ os) tag = do tag ← read_option o tag; read_options os tag

-- The checks of parseTag after its loop.
unfoldable pub check_options : FieldTag → Result FieldTag
check_options tag =
    if tag.required && tag.null_if_zero
    then err (message "a REQUIRED column cannot hold NULL")
    else if tag.is_record && not (str_eq tag.time_type "")
    then err (message "the record and time options conflict: a column has one type")
    else ok tag

unfoldable pub parse_tag : String → Result FieldTag
parse_tag s = if str_eq s "-" then ok (record no_tag { skip = true }) else do
  tag ← read_options (split b',' (cut b',' s).1) (record no_tag { name = (cut b',' s).0 })
  check_options tag

module _ (to_lower : String → String) where
  unfoldable pub granularity_of : String → Result PartitioningType
  granularity_of v =
      if str_eq (to_lower v) "" || str_eq (to_lower v) "day"
      then ok day_partitioning
      else if str_eq (to_lower v) "hour"
      then ok hour_partitioning
      else if str_eq (to_lower v) "month"
      then ok month_partitioning
      else if str_eq (to_lower v) "year"
      then ok year_partitioning
      else err (message "the partition tag wants day, hour, month or year")

  unfoldable pub read_requirements : List String → FieldTag → Result FieldTag
  read_requirements [] tag = ok tag
  read_requirements (o ∷ os) tag =
      if str_eq (to_lower o) ""
      then read_requirements os tag
      else if str_eq (to_lower o) "require"
      then read_requirements os (record tag { require_filter = true })
      else err (message "the partition tag has an unknown option")

  unfoldable pub parse_partition : String → FieldTag → Result FieldTag
  parse_partition v tag = do
    g ← granularity_of (cut b',' v).0
    read_requirements (split b',' (cut b',' v).1) (record tag { partition = some g })

  module _ (atoi : String → Option ℕ) where
    abbrev pub max_clustering_columns : ℕ
    max_clustering_columns = 4

    unfoldable pub parse_cluster : String → FieldTag → Result FieldTag
    parse_cluster v tag = elim (atoi v) [
      | none ↦ err (message "the cluster tag wants a position counting from 1")
      | some position ↦
          if leb 1 position && leb position max_clustering_columns
          then ok (record tag { cluster = position })
          else err (message "the cluster tag wants a position from 1 to 4")
    ]

    abbrev got : Option String → String
    got none = ""
    got (some v) = v

    abbrev if_present :
        Option String → (String → FieldTag → Result FieldTag) → FieldTag → Result FieldTag
    if_present none read tag = ok tag
    if_present (some v) read tag = read v tag

    abbrev describe : (String → Option String) → FieldTag → Result FieldTag
    describe keys tag = do
      tag ← if_present (keys "partition") parse_partition tag
      tag ← if_present (keys "cluster") parse_cluster tag
      ok (record tag { description = got (keys "description") })

    unfoldable pub parse_field_tags : (String → Option String) → Result FieldTag
    parse_field_tags keys = do
      tag ← parse_tag (got (keys "bqsink"))
      if tag.skip then ok tag else describe keys tag
