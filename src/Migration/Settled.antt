-- ===== src/Migration/Settled.antt =====
-- A migration that succeeds leaves the real table as the declaration says.
use bqsink.Common.{
  String, ◌≡◌, ap, ◌∙◌, Bool, true, Option, some, List, [], ◌∷◌, arith, inl, inr, All,
}
use bqsink.Fault.{ok}
use bqsink.Column.{Schema}
use bqsink.Diff.{SchemaDiff, empty, diff_schema, without}
use bqsink.Diff.Lookup.{last_named}
use bqsink.Diff.Agree.{Finds, diff_schema-empty_iff}
use bqsink.Diff.Classes.{names_declared}
use bqsink.Diff.Nesting.{IsProper, last_named_self}
use bqsink.Diff.Ignoring.{drop_named, without-diff_schema}
use bqsink.Strategy.{append_new_columns, sync_all_columns}
use bqsink.Strategy.Answers.{append-answer}
use bqsink.Merge.{merge_schema}
use bqsink.Merge.Converges.{IsDeclaration, Matches-self, append_converges}
use bqsink.Merge.Sync.{IsDeclaration-drop, sync_converges}
use bqsink.Migration.{Target, migrate}
use bqsink.Migration.Reconciles.{Behaves, drop_none, migrate_sets}

find_self :
    (found ws : Schema)
    → All (λ w. last_named w.name found ≡ some w) ws
    → All (λ w. IsProper w.schema) ws
    → All (Finds found) ws
find_self found [] h p = tt
find_self found (w ∷ ws) h p = ((w, h.0, Matches-self w p.0), find_self found ws h.1 p.1)

-- A table made from the declaration agrees with it.
diff_self : (want : Schema) → IsDeclaration want → empty (diff_schema want want) ≡ true
diff_self want p =
    (diff_schema-empty_iff want want).1
      (find_self want want (last_named_self want p.0) p.1, names_declared want)

nil_of_empty :
    (d : SchemaDiff) → empty d ≡ true → (d.added ≡ []) × (d.relaxed ≡ []) × (d.conflicts ≡ [])
unfolding empty
nil_of_empty d h = ground arith

module _ {W : Type 0} (s : Target W) (view : W → Option Schema)
    (b : Behaves s.table s.relation view) (proper : IsDeclaration s.schema) (w w' : W)
    (done : migrate s w ≡ (ok tt, w')) where
  -- With AppendNewColumns and a declaration without repeated names, over a table that behaves as
  -- BigQuery documents: after a migration that succeeds the table exists, and comparing it with the
  -- declaration finds no column to add, none to relax and no conflict.
  pub migrate-append_settles :
      (create : Bool)
      → s.strategy ≡ append_new_columns create
      → (found : Schema) × (view w' ≡ some found)
        × ((diff_schema s.schema found).added ≡ [])
        × ((diff_schema s.schema found).relaxed ≡ [])
        × ((diff_schema s.schema found).conflicts ≡ [])
  migrate-append_settles create same = elim (migrate_sets s view b w w' done) [
    | inl made ↦
        let (a, r, c) = nil_of_empty _ (diff_self s.schema proper) in (s.schema, made, a, r, c)
    | inr (md, change, answer, holds) ↦
        let plan = rw same at answer in
        let (c, e) = append-answer create (diff_schema s.schema md.schema) plan in
        let q = append_converges create s.schema md.schema proper plan in
        let keep =
          drop_none change.drop_columns (merge_schema md.schema change)
            (ap (λ x. x.drop_columns) e) in
        (merge_schema md.schema change, holds ∙ ap some keep, q.0, q.1, q.2)
  ]

  -- With SyncAllColumns and a declaration without repeated names, over a table that behaves as BigQuery
  -- documents: after a migration that succeeds the table exists, and comparing it with the declaration
  -- finds no difference in any column outside IgnoreColumns.
  pub migrate-sync_settles :
      (ignore : List String) (create : Bool)
      → s.strategy ≡ sync_all_columns ignore create
      → (found : Schema) × (view w' ≡ some found)
        × (empty (without (diff_schema s.schema found) ignore) ≡ true)
  migrate-sync_settles ignore create same = elim (migrate_sets s view b w w' done) [
    | inl made ↦ (
      s.schema,
      made,
      rw (without-diff_schema s.schema s.schema ignore)
          (diff_self (drop_named ignore s.schema) (IsDeclaration-drop ignore s.schema proper)),
    )
    | inr (md, change, answer, holds) ↦
        (_, holds, sync_converges ignore create s.schema md.schema proper (rw same at answer))
  ]
