-- ===== src/Merge.antt =====
-- mergeSchema and requiredNames of migration.go: the schema that a patch sends.
mod Names
pub mod Converges
pub mod Sync
use bqsink.Common.{String, Bool, false, List, [], ◌∷◌, ◌++◌, map, if◌then◌else◌, contains}
use bqsink.Column.{FieldSchema, Schema}
use bqsink.Strategy.{SchemaChange}

-- copied := *f; if relax[copied.Name] { copied.Required = false }
unfoldable pub relax_column : List String → FieldSchema → FieldSchema
relax_column relax f = if contains f.name relax then record f { required = false } else f

unfoldable pub relax_all : List String → Schema → Schema
unfolding relax_column
relax_all relax [] = []
relax_all relax (f ∷ fs) = relax_column relax f ∷ relax_all relax fs

unfoldable pub merge_schema : Schema → SchemaChange → Schema
unfolding relax_all
merge_schema got change = relax_all change.relax_columns got ++ change.add_columns

unfoldable pub required_names : Schema → List String
required_names [] = []
required_names (f ∷ fs) = let rest = required_names fs in if f.required then f.name ∷ rest else rest
