-- ===== src/Merge/Sync.antt =====
-- SyncAllColumns brings the table to the declaration, but for the columns that it ignores.
use bqsink.Common.{
  String, ◌≡◌, refl, ap, ◌∙◌, sym, subst, Bool, true, false, List, [], ◌∷◌, ◌++◌, arith, is_empty,
  contains, Distinct, All, All-map, Bool-cases, inl, inr,
}
use bqsink.Fault.{ok}
use bqsink.Column.{FieldSchema, Schema, names_of}
use bqsink.Diff.{empty, undeclared, diff_schema, without}
use bqsink.Diff.Agree.{Agree, Finds, undeclared_empty, diff_schema-empty_iff}
use bqsink.Diff.Classes.{names_declared, undeclared-added}
use bqsink.Diff.Ignoring.{drop_named, last_named-drop_named, without-diff_schema}
use bqsink.Diff.Mentions.{kept_columns}
use bqsink.Diff.Nesting.{IsProper}
use bqsink.Strategy.{SchemaChange, sync_all_columns}
use bqsink.Strategy.Answers.{sync-answer}
use bqsink.Merge.{relax_all, merge_schema}
use bqsink.Merge.Names.{name-relax_column, not-undeclared, drop_undeclared}
use bqsink.Merge.Converges.{IsDeclaration, patched, all_found, undeclared-patched}

-- A declared column survives the drop of undeclared ones.
Finds-drop_named :
    (declared names : List String) (fs ws : Schema)
    → ((n : String) → contains n declared ≡ true → contains n names ≡ false)
    → All (λ w. contains w.name declared ≡ true) ws
    → All (Finds fs) ws
    → All (Finds (drop_named names fs)) ws
Finds-drop_named declared names fs [] out d h = tt
Finds-drop_named declared names fs (w ∷ ws) out d h =
    let (g, e, m) = h.0 in
    (
      (g, last_named-drop_named w.name names fs (out w.name d.0) ∙ e, m),
      Finds-drop_named declared names fs ws out d.1 h.1,
    )

Agree-after_drop :
    (want got : Schema)
    → IsDeclaration want
    → (diff_schema want got).conflicts ≡ []
    → Agree want (drop_named (undeclared (names_of want) got) (patched got (diff_schema want got)))
Agree-after_drop want got p c =
    let next = patched got (diff_schema want got) in
    (
      Finds-drop_named (names_of want) (undeclared (names_of want) got) next want
          (λ n h. not-undeclared (names_of want) n got h) (names_declared want)
          (all_found want got p c),
      subst (λ l. All (λ f. contains f.name (names_of want) ≡ true) (drop_named l next))
          (undeclared-patched want got) (drop_undeclared (names_of want) next),
    )

drop-append :
    (names : List String) (fs gs : Schema)
    → drop_named names (fs ++ gs) ≡ drop_named names fs ++ drop_named names gs
drop-append names [] gs = refl
drop-append names (f ∷ fs) gs = ground (arith, drop-append names fs gs)

drop_comm :
    (xs ys : List String) (fs : Schema)
    → drop_named xs (drop_named ys fs) ≡ drop_named ys (drop_named xs fs)
drop_comm xs ys [] = refl
drop_comm xs ys (f ∷ fs) = ground (arith, drop_comm xs ys fs)

drop-relax_all :
    (names relax : List String) (fs : Schema)
    → drop_named names (relax_all relax fs) ≡ relax_all relax (drop_named names fs)
unfolding relax_all
drop-relax_all names relax [] = refl
drop-relax_all names relax (f ∷ fs) =
    ground (arith, drop-relax_all names relax fs, name-relax_column relax f)

drop-none :
    (names : List String) (fs : Schema)
    → All (λ f. contains f.name names ≡ false) fs
    → drop_named names fs ≡ fs
drop-none names [] h = refl
drop-none names (f ∷ fs) h = ground (arith, drop-none names fs h.1)

Distinct-drop :
    (names : List String) (fs : Schema)
    → Distinct (names_of fs)
    → Distinct (names_of (drop_named names fs))
Distinct-drop names [] u = tt
Distinct-drop names (f ∷ fs) u = elim (Bool-cases (contains f.name names)) [
  | inl gone ↦ rw gone (Distinct-drop names fs u.1)
  | inr kept ↦ rw kept (ground (arith, kept_columns f.name names fs), Distinct-drop names fs u.1)
]

All-drop {κ} :
    (P : FieldSchema → Type κ) (names : List String) (fs : Schema)
    → All P fs
    → All P (drop_named names fs)
All-drop P names [] h = tt
All-drop P names (f ∷ fs) h = elim (Bool-cases (contains f.name names)) [
  | inl gone ↦ rw gone (All-drop P names fs h.1)
  | inr kept ↦ rw kept (h.0, All-drop P names fs h.1)
]

pub IsDeclaration-drop :
    (names : List String) (want : Schema)
    → IsDeclaration want
    → IsDeclaration (drop_named names want)
IsDeclaration-drop names want p =
    (Distinct-drop names want p.0, All-drop (λ w. IsProper w.schema) names want p.1)

-- What is added for a declaration without the ignored columns is not ignored.
added-drop :
    (names : List String) (want got : Schema)
    → drop_named names (diff_schema (drop_named names want) got).added
      ≡ (diff_schema (drop_named names want) got).added
added-drop names want got =
    let added = (diff_schema (drop_named names want) got).added in
    drop-none names added (
      All-map (λ f h. ground (arith, h, kept_columns f.name names want)) added
        ((undeclared_empty (names_of (drop_named names want)) added).0
          (ap is_empty (undeclared-added (drop_named names want) got))))

-- Whatever SyncAllColumns asks for of an existing table, once the patch is merged and the columns to
-- drop are gone, a second comparison finds no difference in any column outside IgnoreColumns.
pub sync_converges :
    (ignore : List String) (create : Bool) (want got : Schema) {change : SchemaChange}
    → IsDeclaration want
    → (sync_all_columns ignore create
        (record { exists = true; diff = diff_schema want got })).answer
      ≡ ok change
    → empty (
        without
          (diff_schema want (drop_named change.drop_columns (merge_schema got change)))
          ignore)
      ≡ true
unfolding merge_schema
sync_converges ignore create want got {change} p h =
    let declared = drop_named ignore want in
    let found = drop_named ignore got in
    let d = diff_schema declared found in
    let q = IsDeclaration-drop ignore want p in
    let same = without-diff_schema want got ignore in
    let (c, e) = sync-answer ignore create (diff_schema want got) h in
    let final = drop_named d.removed (relax_all d.relaxed got ++ d.added) in
    let settled : drop_named ignore final
        ≡ drop_named d.removed (relax_all d.relaxed found ++ d.added) =
      drop_comm ignore d.removed (relax_all d.relaxed got ++ d.added)
      ∙ ap (drop_named d.removed) (
          rw (
            drop-append ignore (relax_all d.relaxed got) d.added,
            drop-relax_all ignore d.relaxed got,
            added-drop ignore want found,
          )) in
    rw e (
      rw same (
        rw (without-diff_schema want final ignore) (
          (diff_schema-empty_iff declared (drop_named ignore final)).1 (
            rw settled (
              unfold diff_schema in
              Agree-after_drop declared found q (ap (λ x. x.conflicts) (sym same) ∙ c))))))
