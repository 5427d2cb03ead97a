-- ===== src/Migration/Reconciles.antt =====
-- A migration that succeeds leaves the real table as the declaration says.
use bqsink.Common.{
  String, ◌≡◌, ◌≢◌, ◌⊎◌, refl, ap, ◌∙◌, sym, true, not, ◌&&◌, Option, none, some, List, [], ◌∷◌,
  map, arith, is_empty, All, Bool-cases, inl, inr, append-nil,
}
use bqsink.Fault.{Error, Result, ok, err}
use bqsink.Exec.{bind-ok, wrapping-ok, wrapping, lift, ◌>>◌}
use bqsink.Relation.{Relation}
use bqsink.Column.{Schema}
use bqsink.Metadata.{TableMetadata, clear_read_only}
use bqsink.Diff.{diff_schema}
use bqsink.Diff.Ignoring.{drop_named}
use bqsink.Strategy.{TableState, SchemaChange, asks_nothing, LogRecord, warn}
use bqsink.Strategy.Reports.{on_table}
use bqsink.Merge.{relax_all, merge_schema, required_names}
use bqsink.Migration.{
  Table, Target, statement, logging, drop_columns, patch_schema, new_table_metadata, create_table,
  apply, log_all, plan_and_apply, on_metadata, migrate, is_not_found,
}
use bqsink.Migration.Statement.{
  clause, alter_text, statement-alter_text, IsColumnName, drop_clauses-cases, drop_columns-guarded,
}

-- What BigQuery documents of the calls, `view` being the table's schema: a read returns it, a patch
-- that succeeds sets it, a creation that succeeds gives the new table its schema, a DROP COLUMN
-- statement over proper names that succeeds takes those columns away, and logging leaves it alone.
pub record Behaves {W : Type 0} (t : Table W) (r : Relation) (view : W → Option Schema)
    : Type 0 where
  pub reads :
      (w w' : W) (md : TableMetadata) → t.metadata w ≡ (ok md, w') → view w' ≡ some md.schema
  pub updates :
      (next : Schema) (etag : String) (w w' : W)
      → t.update next etag w ≡ (ok tt, w')
      → view w' ≡ some next
  pub creates :
      (md : TableMetadata) (w w' : W) → t.create md w ≡ (ok tt, w') → view w' ≡ some md.schema
  pub drops :
      (names : List String) (found : Schema) (w w' : W)
      → All IsColumnName names
      → view w ≡ some found
      → t.run (statement r (map clause names)) w ≡ (ok tt, w')
      → view w' ≡ some (drop_named names found)
  pub logs : (l : LogRecord) (w : W) → view (t.log l w) ≡ view w

relax_none : (fs : Schema) → relax_all [] fs ≡ fs
unfolding relax_all
relax_none [] = refl
relax_none (f ∷ fs) = ap (λ l. f ∷ l) (relax_none fs)

pub drop_none : (names : List String) (fs : Schema) → names ≡ [] → drop_named names fs ≡ fs
drop_none names [] e = refl
drop_none names (f ∷ fs) e = ground (arith, drop_none names fs e)

-- With nothing to add or relax the merged schema is the table's own.
merge_idle :
    (got : Schema) (change : SchemaChange)
    → (is_empty change.add_columns && is_empty change.relax_columns) ≡ true
    → merge_schema got change ≡ got
unfolding merge_schema
merge_idle got change h =
    let a : change.add_columns ≡ [] = ground arith in
    let r : change.relax_columns ≡ [] = ground arith in
    rw (a, r) (append-nil (relax_all [] got) ∙ relax_none got)

ok-ne-err :
    {W : Type 0} (e : Error) (v w : W) → ◌≢◌ {A = Result (Unit {0}) × W} (ok tt, v) (err e, w)
ok-ne-err e v w h = ground arith

module _ {W : Type 0} (s : Target W) (view : W → Option Schema)
    (b : Behaves s.table s.relation view) where
  update_sets :
      (text : String) (l : LogRecord) (next : Schema) (etag : String) (w w' : W)
      → (do wrapping text (s.update next etag); logging s l) w ≡ (ok tt, w')
      → view w' ≡ some next
  update_sets text l next etag w w' h =
      let (u, v, first, last) = bind-ok (wrapping text (s.update next etag)) (λ _. logging s l) h in
      let logged = ap (λ p. p.1) last in
      rw (← logged)
        (b.logs l v ∙ b.updates next etag w v (wrapping-ok text (s.update next etag) first))

  patch_sets :
      (md : TableMetadata) (change : SchemaChange) (w w' : W)
      → view w ≡ some md.schema
      → patch_schema s md change w ≡ (ok tt, w')
      → view w' ≡ some (merge_schema md.schema change)
  unfolding patch_schema
  patch_sets md change w w' v h =
      elim (Bool-cases (is_empty change.add_columns && is_empty change.relax_columns)) [
        | inl idle ↦
            let same = ap (λ p. p.1) (rw idle at h) in
            rw (merge_idle md.schema change idle) (rw (← same) v)
        | inr busy ↦ elim (Bool-cases (not (is_empty (required_names change.add_columns)))) [
          | inl bad ↦ let h' = rw (busy, bad) at h in cc
          | inr fine ↦
              update_sets _ _ (merge_schema md.schema change) md.etag w w' (rw (busy, fine) at h)
        ]
      ]

  drop_takes :
      (names : List String) (found : Schema) (w w' : W)
      → view w ≡ some found
      → drop_columns s names w ≡ (ok tt, w')
      → view w' ≡ some (drop_named names found)
  drop_takes names found w w' v h =
      let (runs, refuses) = drop_columns-guarded s names w in
      elim (drop_clauses-cases names) [
        | inl (good, _) ↦
            let run = wrapping "bqsink: drop columns" (s.run (alter_text s.relation names)) in
            let note : LogRecord = record {
              level = warn;
              text = "dropped columns, and the data they held is gone";
              columns = names;
            } in
            let (u, x, first, last) = bind-ok run (λ _. logging s note) (sym (runs good) ∙ h) in
            let logged = ap (λ p. p.1) last in
            rw (← logged) (
              b.logs note x
              ∙ b.drops names found w x good v (
                  rw (statement-alter_text s.relation names)
                    (wrapping-ok _ (s.run (alter_text s.relation names)) first)))
        | inr (bad, _) ↦ let (e, stuck) = refuses bad in absurd (ok-ne-err _ _ _ (sym h ∙ stuck))
      ]

  -- An applied change leaves the merged schema without the columns to drop.
  apply_sets :
      (md : TableMetadata) (change : SchemaChange) (w w' : W)
      → view w ≡ some md.schema
      → apply s (some md) change w ≡ (ok tt, w')
      → view w' ≡ some (drop_named change.drop_columns (merge_schema md.schema change))
  unfolding apply asks_nothing
  apply_sets md change w w' v h = elim (Bool-cases (asks_nothing change)) [
    | inl idle ↦
        let same = ap (λ p. p.1) (rw idle at h) in
        let none : change.drop_columns ≡ [] = ground arith in
        rw
          (
            drop_none change.drop_columns (merge_schema md.schema change) none,
            merge_idle md.schema change (ground arith),
          )
          (rw (← same) (b.logs _ w ∙ v))
    | inr busy ↦
        let (u, x, first, last) = bind-ok (patch_schema s md change) _ (rw busy at h) in
        let v' = patch_sets md change w x v first in
        elim (Bool-cases (is_empty change.drop_columns)) [
          | inl keep ↦
              let same = ap (λ p. p.1) (rw keep at last) in
              let none : change.drop_columns ≡ [] = ground arith in
              rw (drop_none change.drop_columns (merge_schema md.schema change) none)
                (rw (← same) v')
          | inr drop ↦
              drop_takes change.drop_columns (merge_schema md.schema change) x w' v'
                (rw drop at last)
        ]
  ]

  log_all_view :
      (ls : List LogRecord) (w : W) → (v : W) × (log_all s ls w ≡ (ok tt, v)) × (view v ≡ view w)
  unfolding log_all
  log_all_view [] w = (w, refl, refl)
  log_all_view (l ∷ ls) w =
      let (v, e, same) = log_all_view ls (s.log l w) in (v, e, same ∙ b.logs l w)

  -- Planning and applying on a table that is there: it holds what the change makes of it.
  planned_sets :
      (md : TableMetadata) (state : TableState) (w w' : W)
      → view w ≡ some md.schema
      → plan_and_apply s (some md) state w ≡ (ok tt, w')
      → (change : SchemaChange) × ((s.strategy state).answer ≡ ok change)
        × (view w' ≡ some (drop_named change.drop_columns (merge_schema md.schema change)))
  unfolding plan_and_apply
  planned_sets md state w w' v h =
      let (u, x, first, last) = bind-ok (log_all s (s.strategy state).logged) _ h in
      let (x', logged, same) = log_all_view (s.strategy state).logged w in
      let (change, y, answer, applied) =
        bind-ok (wrapping "bqsink: migrate" (lift (s.strategy state).answer)) _ last in
      let a = wrapping-ok _ (lift (s.strategy state).answer) answer in
      let here : view y ≡ some md.schema =
        ap view (sym (ap (λ p. p.1) a)) ∙ ap view (ap (λ p. p.1) (sym first ∙ logged)) ∙ same ∙ v in
      (change, ap (λ p. p.0) a, apply_sets md change y w' here applied)

  -- On a missing table: it now holds the declared schema.
  create_sets : (w w' : W) → create_table s w ≡ (ok tt, w') → view w' ≡ some s.schema
  unfolding create_table clear_read_only
  create_sets w w' h =
      let (u, x, first, last) =
        bind-ok (wrapping "bqsink: create" (s.create (new_table_metadata s))) _ h in
      let logged = ap (λ p. p.1) last in
      rw (← logged) (
        b.logs _ x
        ∙ b.creates (new_table_metadata s) w x
            (wrapping-ok _ (s.create (new_table_metadata s)) first))

  missing_sets :
      (state : TableState) (w w' : W)
      → plan_and_apply s none state w ≡ (ok tt, w')
      → view w' ≡ some s.schema
  unfolding plan_and_apply apply
  missing_sets state w w' h =
      let (u, x, first, last) = bind-ok (log_all s (s.strategy state).logged) _ h in
      let (change, y, answer, applied) =
        bind-ok (wrapping "bqsink: migrate" (lift (s.strategy state).answer)) _ last in
      elim (Bool-cases change.create_table) [
        | inl make ↦ create_sets y w' (rw make at applied)
        | inr leave ↦ absurd (ok-ne-err _ _ _ (sym (rw leave at applied)))
      ]

  -- What a successful migration has made of the table.
  pub migrate_sets :
      (w w' : W)
      → migrate s w ≡ (ok tt, w')
      → (view w' ≡ some s.schema)
        ⊎ ((md : TableMetadata) × (change : SchemaChange) × ((s.strategy
                (on_table (diff_schema s.schema md.schema))).answer
              ≡ ok change)
            × (view w' ≡ some (drop_named change.drop_columns (merge_schema md.schema change))))
  unfolding migrate on_metadata
  migrate_sets w w' h = go (s.metadata w) refl h
    where
      go :
          (p : Result TableMetadata × W)
          → s.metadata w ≡ p
          → on_metadata s p.0 p.1 ≡ (ok tt, w')
          → (view w' ≡ some s.schema)
            ⊎ ((md : TableMetadata) × (change : SchemaChange) × ((s.strategy
                    (on_table (diff_schema s.schema md.schema))).answer
                  ≡ ok change)
                × (view w' ≡ some (drop_named change.drop_columns (merge_schema md.schema change))))
      go (ok md, x) e k =
          let (change, answer, holds) =
            planned_sets md (on_table (diff_schema s.schema md.schema)) _ w'
              (b.logs _ x ∙ b.reads w x md e) k in
          inr (md, change, answer, holds)
      go (err e, x) q k = elim (Bool-cases (is_not_found e)) [
        | inl gone ↦ inl (missing_sets _ _ w' (rw gone at k))
        | inr other ↦ absurd (ok-ne-err _ _ _ (sym (rw other at k)))
      ]
