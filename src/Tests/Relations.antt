-- ===== src/Tests/Relations.antt =====
-- Table references.
use bqsink.Common.{◌≡◌, refl, arith, eq_iff}
use bqsink.Fault.{message, ok, err}
use bqsink.Relation.{Relation, validate, parse_relation, to_string}
use bqsink.Common.Text.{split}
use bqsink.Relation.Notation.{IsReference, Reads, parse_relation-to_string, parse_relation-Reads}

abbrev access : Relation
access = record { project_id = "p"; dataset_id = "logs"; table_id = "access" }

access-IsReference : IsReference access
access-IsReference = record {
  dataset = ground (arith, eq_iff "logs" "");
  table = ground (arith, eq_iff "access" "");
  plain_project = omega arith;
  plain_dataset = omega arith;
  plain_table = omega arith;
}

parse_relation-to_string_example : parse_relation (to_string access) ≡ ok access
parse_relation-to_string_example = parse_relation-to_string access access-IsReference

-- A leading dot is read as an empty project.
leading_dot :
    parse_relation ".logs.access"
    ≡ ok (record { project_id = ""; dataset_id = "logs"; table_id = "access" })
unfolding parse_relation split validate
leading_dot = refl

parse_relation-Reads_example :
    Reads ".logs.access" (record { project_id = ""; dataset_id = "logs"; table_id = "access" })
parse_relation-Reads_example = parse_relation-Reads ".logs.access" _ leading_dot

three_dots :
    parse_relation "a.b.c.d"
    ≡ err (message "bqsink: not a table reference of the form project.dataset.table")
unfolding parse_relation split
three_dots = refl
