-- ===== src/Storage/Parents.antt =====
-- Which streams NewWriter accepts for a table.
use Prim.Native.Char.{Char}
use bqsink.Common.{
  ◌≡◌, ◌≢◌, refl, sym, ◌∙◌, true, false, none, some, List, [], ◌∷◌, arith, String, if◌then◌else◌,
  Bool-cases, inl, inr, str_eq, ◌&&◌, eq_iff,
}
use bqsink.Common.Text.{split}
use bqsink.Common.Text
use bqsink.Common.Splitting.{join-split}
use bqsink.Fault.{Error, Result, ok, err, wrap, message}
use bqsink.Fault
use bqsink.Relation.{Relation, validate}
use bqsink.Storage.{
  Settings, Writer, validate_settings, check_stream, with_project, new_writer, of_segments,
  parse_table_parent, same_relation,
}

abbrev slash : Char
slash = "/"

-- The table that a parent names.
abbrev pub parent_of : Relation → String
parent_of r =
    Text.join "/"
      ("projects" ∷ r.project_id ∷ "datasets" ∷ r.dataset_id ∷ "tables" ∷ r.table_id ∷ [])

of_segments-ok :
    (segs : List String) (r : Relation) → of_segments segs ≡ ok r → Text.join "/" segs ≡ parent_of r
unfolding of_segments
of_segments-ok [] r h = cc
of_segments-ok (a ∷ []) r h = cc
of_segments-ok (a ∷ p ∷ []) r h = cc
of_segments-ok (a ∷ p ∷ b ∷ []) r h = cc
of_segments-ok (a ∷ p ∷ b ∷ d ∷ []) r h = cc
of_segments-ok (a ∷ p ∷ b ∷ d ∷ c ∷ []) r h = cc
of_segments-ok (a ∷ p ∷ b ∷ d ∷ c ∷ t ∷ []) r h =
    elim (Bool-cases (str_eq a "projects" && str_eq b "datasets" && str_eq c "tables")) [
      | inl plain ↦
          let x = (eq_iff a "projects").0 (ground arith) in
          let y = (eq_iff b "datasets").0 (ground arith) in
          let z = (eq_iff c "tables").0 (ground arith) in
          let e : ok (record { project_id = p; dataset_id = d; table_id = t }) ≡ ok r =
            rw plain at h in
          rw (x, y, z) (ground (arith, e))
      | inr other ↦ let h' = rw other at h in cc
    ]
of_segments-ok (a ∷ p ∷ b ∷ d ∷ c ∷ t ∷ u ∷ us) r h = cc

-- What parses as a table parent is the parent that its relation has.
parse_table_parent-ok : (s : String) (r : Relation) → parse_table_parent s ≡ ok r → s ≡ parent_of r
unfolding parse_table_parent
parse_table_parent-ok s r h = sym (join-split slash s) ∙ of_segments-ok (split b'/' s) r h

same_relation-parent : (a b : Relation) → same_relation a b ≡ true → parent_of a ≡ parent_of b
unfolding same_relation
same_relation-parent a b h =
    let x = (eq_iff a.project_id b.project_id).0 (ground arith) in
    let y = (eq_iff a.dataset_id b.dataset_id).0 (ground arith) in
    let z = (eq_iff a.table_id b.table_id).0 (ground arith) in rw (x, y, z) refl

check_stream-ok :
    (parent : String → String) (name : String) (r : Relation)
    → check_stream parent name r ≡ ok tt
    → name ≢ ""
    → parent name ≡ parent_of r
unfolding check_stream
check_stream-ok parent name r h named = elim (Bool-cases (str_eq name "")) [
  | inl blank ↦ absurd (named ((eq_iff name "").0 blank))
  | inr full ↦ go (parse_table_parent (parent name)) refl (rw full at h)
]
  where
    go :
        (p : Result Relation)
        → parse_table_parent (parent name) ≡ p
        → (elim p as (λ x. Result (Unit {0})) [
          | err e ↦ err (wrap "bqsink: StorageWrite.NewWriter: StreamName" e)
          | ok owner ↦
              if same_relation owner r
              then ok tt
              else err
                  (message "bqsink: StorageWrite.NewWriter: StreamName belongs to another table")
        ])
          ≡ ok tt
        → parent name ≡ parent_of r
    go (err e) q k = cc
    go (ok owner) q k = elim (Bool-cases (same_relation owner r)) [
      | inl same ↦ parse_table_parent-ok (parent name) owner q ∙ same_relation-parent owner r same
      | inr other ↦ let k' = rw other at k in cc
    ]

first-ok :
    {B : Type 0} (m : Result (Unit {0})) (k : Result B) {b : B}
    → Fault.◌>>◌ m k ≡ ok b
    → (m ≡ ok tt) × (k ≡ ok b)
first-ok (ok tt) k h = (refl, h)
first-ok (err e) k h = cc

-- A writer that NewWriter returns for settings that name a stream has no schema bound, and the parent
-- of that stream is the writer's table, in the project that was given or else the client's.
pub new_writer-stream :
    {D Client Stream : Type 0} (parent : String → String) (c : Settings) (project : String)
    (r : Relation) (v : Writer D Client Stream)
    → new_writer parent c (some project) r ≡ ok v
    → c.stream_name ≢ ""
    → (parent c.stream_name ≡ parent_of (with_project project r))
      × (v.relation ≡ with_project project r)
      × (v.bound ≡ none)
      × (v.closed ≡ false)
unfolding new_writer
new_writer-stream parent c project r v h named =
    let (valid, rest) = first-ok (validate r) _ h in
    let (fine, rest2) = first-ok (Fault.wrapping "bqsink" (validate_settings c)) _ rest in
    let (owned, made) =
      first-ok (check_stream parent c.stream_name (with_project project r)) _ rest2 in
    (
      check_stream-ok parent c.stream_name (with_project project r) owned named,
      ground (arith, made),
      ground (arith, made),
      ground (arith, made),
    )
