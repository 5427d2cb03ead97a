-- ===== src/Tests/Tables.antt =====
-- A table in memory that refuses every statement but the one that drops `old`, and migrations of it.
use Prim.Native.String
use Prim.Native.String.{count}
use bqsink.Common.{
  ◌≤◌, String, ◌≡◌, refl, ap, sym, ◌∙◌, true, false, Option, none, some, List, [], ◌∷◌, map, arith,
  str_eq, if◌then◌else◌, All, Bool-cases, eq_iff, inl, inr,
}
use text.Mathlib.TextLemmas.{length-append, append_cancel_left, append_cancel_right}
use bqsink.Common.Text
use bqsink.Fault.{Error, message, api_error, Result, ok, err, as_api}
use bqsink.Exec.{wrapping, ◌>>◌}
use bqsink.Relation.{Relation, quoted}
use bqsink.Column.{Schema, type_eq, string_type, integer_type}
use bqsink.Metadata.{TableMetadata, no_metadata, clear_read_only}
use bqsink.Diff.{diff_schema, empty, without, conflict_between, same_nested_schema, mentions}
use bqsink.Diff.Ignoring.{drop_named}
use bqsink.Strategy.{asks_nothing, warn, append_new_columns, sync_all_columns}
use bqsink.Merge.{merge_schema, required_names}
use bqsink.Merge.Converges.{IsDeclaration}
use bqsink.Migration.{
  Table, Target, statement, migrate, drop_columns, logging, drop_clauses, check_column_name,
  is_not_found, plan_and_apply, on_metadata, create_table, apply, patch_schema,
}
use bqsink.Migration.Statement.{clause, alter_text, IsColumnName, drop_columns-guarded}
use bqsink.Migration.Reconciles.{Behaves}
use bqsink.Migration.Settled.{migrate-append_settles, migrate-sync_settles}
use bqsink.Tests.Schemas.{nested, swapped, plain, declared, real}

abbrev access : Relation
access = record { project_id = "p"; dataset_id = "logs"; table_id = "access" }

abbrev without_old : Option Schema → Option Schema
without_old none = none
without_old (some fs) = some (drop_named ("old" ∷ []) fs)

abbrev the_drop : String
the_drop = statement access (clause "old" ∷ [])

abbrev read : Option Schema → Result TableMetadata × Option Schema
read none = (err (api_error 404), none)
read (some fs) = (ok (record no_metadata { schema = fs; etag = "e1" }), some fs)

abbrev memory : Table (Option Schema)
memory = record {
  metadata = read;
  update = λ next etag w. (ok tt, some next);
  create = λ md w. (ok tt, some md.schema);
  run =
      λ sql w. if str_eq sql the_drop then (ok tt, without_old w) else (err (message "refused"), w);
  log = λ l w. w;
}

joined_long : (m : String) (ns : List String) → 14 ≤ count (Text.join ", " (map clause (m ∷ ns)))
unfolding Text.join
joined_long m [] =
    ground (arith, length-append "DROP COLUMN `" (String.◌++◌ m "`"), length-append m "`")
joined_long m (n ∷ ns) = ground (
  arith,
  length-append (clause m) (String.◌++◌ ", " (Text.join ", " (map clause (n ∷ ns)))),
  length-append "DROP COLUMN `" (String.◌++◌ m "`"),
  length-append m "`",
)

-- No other statement over column names is the one that drops `old`.
only_old :
    (names : List String) → statement access (map clause names) ≡ the_drop → names ≡ "old" ∷ []
unfolding statement Text.join
only_old names h = cases names (
    append_cancel_left " " _ _
      (append_cancel_left (quoted access) _ _ (append_cancel_left "ALTER TABLE " _ _ h)))
  where
    cases :
        (ns : List String)
        → Text.join ", " (map clause ns) ≡ Text.join ", " (clause "old" ∷ [])
        → ns ≡ "old" ∷ []
    cases [] e = ground (arith, ap count e)
    cases (n ∷ []) e =
        ap (λ x. x ∷ [])
          (append_cancel_right n "old" "`" (append_cancel_left "DROP COLUMN `" _ _ e))
    cases (n ∷ m ∷ ns) e =
        let long = joined_long m ns in
        let first =
          length-append (clause n) (String.◌++◌ ", " (Text.join ", " (map clause (m ∷ ns)))) in
        let second = length-append ", " (Text.join ", " (map clause (m ∷ ns))) in
        let third = length-append "DROP COLUMN `" (String.◌++◌ n "`") in
        let fourth = length-append n "`" in
        let total = ap count e in ground (arith, long, first, second, third, fourth, total)

memory-drops :
    (names : List String) (found : Schema) (w w' : Option Schema)
    → w ≡ some found
    → memory.run (statement access (map clause names)) w ≡ (ok tt, w')
    → w' ≡ some (drop_named names found)
memory-drops names found w w' v h =
    elim (Bool-cases (str_eq (statement access (map clause names)) the_drop)) [
      | inl same ↦
          let e = only_old names ((eq_iff (statement access (map clause names)) the_drop).0 same) in
          sym (ap (λ p. p.1) (rw same at h))
          ∙ ap without_old v
          ∙ ap (λ ns. some (drop_named ns found)) (sym e)
      | inr other ↦ let h' = rw other at h in cc
    ]

memory-Behaves : Behaves memory access (λ w. w)
memory-Behaves = record {
  reads = λ w w' md h. reads w w' md h;
  updates = λ next etag w w' h. ap (λ p. p.1) (sym h);
  creates = λ md w w' h. ap (λ p. p.1) (sym h);
  drops = λ names found w w' good v h. memory-drops names found w w' v h;
  logs = λ l w. refl;
}
  where
    reads : (w w' : Option Schema) (md : TableMetadata) → read w ≡ (ok md, w') → w' ≡ some md.schema
    reads none w' md h = cc
    reads (some fs) w' md h = ground (arith, h)

abbrev syncing : Target (Option Schema)
syncing = record {
  table = memory;
  relation = access;
  strategy = sync_all_columns ("id" ∷ []) true;
  schema = declared;
  declared = none;
}

abbrev appending : Target (Option Schema)
appending = record syncing { strategy = append_new_columns true }

declared-IsDeclaration : IsDeclaration declared
declared-IsDeclaration = ((refl, (refl, (refl, tt))), (tt, (tt, ((refl, tt, (refl, tt, tt)), tt))))

abbrev synced : Schema
synced = plain "id" string_type true ∷ nested swapped ∷ plain "n" integer_type false ∷ []

abbrev appended : Schema
appended =
    plain "id" string_type false
    ∷ nested swapped
    ∷ plain "old" string_type false
    ∷ plain "n" integer_type false
    ∷ []

syncs : migrate syncing (some real) ≡ (ok tt, some synced)
unfolding migrate on_metadata plan_and_apply sync_all_columns append_new_columns without diff_schema
    conflict_between type_eq same_nested_schema mentions apply asks_nothing patch_schema
    required_names drop_columns drop_clauses check_column_name statement quoted Text.join
    merge_schema empty
syncs = refl

appends : migrate appending (some real) ≡ (ok tt, some appended)
unfolding migrate on_metadata plan_and_apply sync_all_columns append_new_columns without diff_schema
    conflict_between type_eq same_nested_schema mentions apply asks_nothing patch_schema
    required_names drop_columns drop_clauses check_column_name statement quoted Text.join
    merge_schema empty
appends = refl

creates : migrate appending none ≡ (ok tt, some declared)
unfolding migrate on_metadata plan_and_apply sync_all_columns append_new_columns without diff_schema
    conflict_between type_eq same_nested_schema mentions apply asks_nothing patch_schema
    required_names drop_columns drop_clauses check_column_name statement quoted Text.join
    merge_schema empty is_not_found as_api create_table clear_read_only
creates = refl

migrate-append_settles_example :
    (found : Schema) × (some appended ≡ some found)
    × ((diff_schema declared found).added ≡ [])
    × ((diff_schema declared found).relaxed ≡ [])
    × ((diff_schema declared found).conflicts ≡ [])
migrate-append_settles_example =
    migrate-append_settles appending (λ w. w) memory-Behaves declared-IsDeclaration (some real)
      (some appended) appends true refl

migrate-sync_settles_example :
    (found : Schema) × (some synced ≡ some found)
    × (empty (without (diff_schema declared found) ("id" ∷ [])) ≡ true)
migrate-sync_settles_example =
    migrate-sync_settles syncing (λ w. w) memory-Behaves declared-IsDeclaration (some real)
      (some synced) syncs ("id" ∷ []) true refl

abbrev quote_break : List String
quote_break = "old" ∷ "x` , DROP COLUMN `y" ∷ []

drop_columns-guarded_example :
    (All IsColumnName quote_break
      → drop_columns syncing quote_break (some real)
        ≡ (do
          wrapping "bqsink: drop columns" (memory.run (alter_text access quote_break))
          logging syncing (record {
            level = warn;
            text = "dropped columns, and the data they held is gone";
            columns = quote_break;
          }))
            (some real))
    × ((¬ All IsColumnName quote_break)
        → (e : Error) × (drop_columns syncing quote_break (some real) ≡ (err e, some real)))
drop_columns-guarded_example = drop_columns-guarded syncing quote_break (some real)
