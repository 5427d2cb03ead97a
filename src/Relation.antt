-- ===== src/Relation.antt =====
-- relation.go: the table that a Sinker writes to.
pub mod Notation
use Prim.Native.String.{◌++◌}
use bqsink.Common.{String, Bool, not, ◌||◌, List, [], ◌∷◌, str_eq, if◌then◌else◌}
use bqsink.Common.Text
use bqsink.Fault.{Error, message, wrap, Result, ok, err, refuse_if, wrapping, ◌>>=◌, ◌>>◌}

pub record Relation : Type 0 where
  pub project_id : String
  pub dataset_id : String
  pub table_id : String

-- Relation.validate
unfoldable pub validate : Relation → Result (Unit {0})
validate r = do
  refuse_if (str_eq r.dataset_id "") (message "bqsink: relation has no dataset")
  refuse_if (str_eq r.table_id "") (message "bqsink: relation has no table")

validated : String → Relation → Result Relation
validated s r = do wrapping s (validate r); ok r

of_parts : String → List String → Result Relation
of_parts s (p ∷ d ∷ t ∷ []) = validated s (record { project_id = p; dataset_id = d; table_id = t })
of_parts s (d ∷ t ∷ []) = validated s (record { project_id = ""; dataset_id = d; table_id = t })
of_parts s _ = err (message "bqsink: not a table reference of the form project.dataset.table")

-- ParseRelation
unfoldable pub parse_relation : String → Result Relation
unfolding of_parts validated
parse_relation s = of_parts s (Text.split b'.' s)

-- Relation.String
unfoldable pub to_string : Relation → String
to_string r =
    if str_eq r.project_id ""
    then r.dataset_id ++ ("." ++ r.table_id)
    else r.project_id ++ ("." ++ (r.dataset_id ++ ("." ++ r.table_id)))

-- Relation.quoted
unfoldable pub quoted : Relation → String
quoted r = "`" ++ (r.project_id ++ ("." ++ (r.dataset_id ++ ("." ++ (r.table_id ++ "`")))))
