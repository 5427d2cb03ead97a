-- ===== src/Tests/Labelled.antt =====
-- Struct tags.
use bqsink.Common.{
  String, ◌≡◌, refl, true, Option, none, some, [], ◌∷◌, map, Distinct, str_eq, if◌then◌else◌,
}
use bqsink.Common.Text
use bqsink.Common.Text.{split, cut}
use bqsink.Fault.{ok}
use bqsink.Metadata.{hour_partitioning}
use bqsink.Tags.{
  FieldTag, no_tag, read_labels, parse_labels, is_time_option, read_option, read_options,
  check_options, parse_tag, granularity_of, read_requirements, parse_partition, parse_cluster,
  parse_field_tags,
}
use bqsink.Tags.Labels.{pair_text, keys, parse_labels-texts}
use bqsink.Tags.Consistent.{IsConsistent, parse_field_tags-IsConsistent}

reads : parse_labels "team=data,env=" ≡ ok (("team", "data") ∷ ("env", "") ∷ [])
unfolding parse_labels read_labels split cut
reads = refl

parse_labels-texts_example :
    (Text.join "," (map pair_text (("team", "data") ∷ ("env", "") ∷ [])) ≡ "team=data,env=")
    × Distinct (keys (("team", "data") ∷ ("env", "") ∷ []))
parse_labels-texts_example = parse_labels-texts "team=data,env=" _ reads

abbrev field : String → Option String
field key =
    if str_eq key "bqsink"
    then some "at,required,,datetime"
    else if str_eq key "partition"
    then some "hour,require"
    else if str_eq key "cluster"
    then some "3"
    else none

abbrev at : FieldTag
at = record no_tag {
  name = "at";
  required = true;
  time_type = "datetime";
  partition = some hour_partitioning;
  require_filter = true;
  cluster = 3;
}

-- Atoi and ToLower on the texts of this tag.
tagged : parse_field_tags (λ s. s) (λ s. some 3) field ≡ ok at
unfolding parse_field_tags parse_tag read_options read_option check_options is_time_option
    parse_partition granularity_of read_requirements parse_cluster split cut
tagged = refl

parse_field_tags-IsConsistent_example : IsConsistent at
parse_field_tags-IsConsistent_example =
    parse_field_tags-IsConsistent (λ s. s) (λ s. some 3) field at tagged
