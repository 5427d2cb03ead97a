-- ===== src/MapRow/Typed.antt =====
-- What a row given as a map becomes: columns of the schema's names and types.
use bqsink.Common.{
  String, ◌≡◌, inl, inr, refl, ap, sym, ◌∙◌, subst, Bool, true, false, Option, none, some, arith,
  Bool-cases, contains, eq_iff, str_eq, eq_refl, ℕ, ◌&&◌, if◌then◌else◌,
}
use bqsink.Fault.{wrap, Result, ok, err, ok_inj}
use bqsink.Column.{
  FieldType, record_type, type_eq, type_eq_iff, Nested, no_columns, column, columns, names_of,
}
use bqsink.Diff.Nesting.{IsProper}
use bqsink.Value.{
  GoValue, any_slice, Entries, no_entries, entry, Value, elements, Values, Columns, no_cells, cell,
  find_entry, is_nil_any,
}
use bqsink.MapRow.{
  Marshalers, marshal_items, to_elements, dispatch, absent, marshal_field, declares, all_declared,
  if_declared, has_cell, put, Plans, nested_of, marshal_columns, plan_for, marshal_map,
}
use bqsink.MapRow.Fits.{FitsGiven, FitsField, Fits, AreClaimed}
use bqsink.MapRow.Scalars.{Gives, marshal_scalar-Fits, marshal_items-Fits}

module _ (C : FieldType → Value → Type 0) (m : Marshalers) (keeps : AreClaimed C m) where
  module _ (t : FieldType) (P : Columns → Type 0) (nested : Entries → Result Columns)
      (good : Gives t P nested) where
    to_elements-Fits :
        (v : GoValue) (out : Value) → to_elements m t nested v ≡ ok out → FitsGiven C t true P out
    to_elements-Fits (any_slice vs) out h = go (marshal_items m t nested vs) refl h
      where
        go :
            (a : Result Values)
            → marshal_items m t nested vs ≡ a
            → (elim a as (λ x. Result Value) [ ok o ↦ ok (elements o) | err e ↦ err e ]) ≡ ok out
            → FitsGiven C t true P out
        go (ok o) q k =
            subst (FitsGiven C t true P) (ok_inj k)
              (marshal_items-Fits P nested C m keeps t good vs o q)
        go (err e) q k = cc
    to_elements-Fits _ out h = cc

    dispatch-Fits :
        (rep : Bool) (v : GoValue) (out : Value)
        → dispatch m t rep nested v ≡ ok out
        → FitsGiven C t rep P out
    dispatch-Fits true v out h = to_elements-Fits v out h
    dispatch-Fits false v out h = marshal_scalar-Fits P nested C m keeps t good v out h

    absent-Fits :
        (rep req : Bool) (out : Value) → absent m req ≡ ok out → FitsField C t rep req P out
    absent-Fits rep true out h = cc
    absent-Fits rep false out h = inl (sym (ok_inj h), refl)

    marshal_field-Fits :
        (rep req : Bool) (o : Option GoValue) (out : Value)
        → marshal_field m t rep req nested o ≡ ok out
        → FitsField C t rep req P out
    unfolding marshal_field
    marshal_field-Fits rep req none out h = absent-Fits rep req out h
    marshal_field-Fits rep req (some v) out h = elim (Bool-cases (is_nil_any v)) [
      | inl nil ↦ absent-Fits rep req out (rw nil at h)
      | inr given ↦ inr (dispatch-Fits rep v out (rw given at h))
    ]

  if_declared-ok :
      (schema : Nested) (r : Entries) (a : Result Columns) (cs : Columns)
      → if_declared m schema r a ≡ ok cs
      → (all_declared m schema r ≡ true) × (a ≡ ok cs)
  if_declared-ok schema r a cs h = elim (Bool-cases (all_declared m schema r)) [
    | inl good ↦ (good, rw good at h)
    | inr bad ↦ let h' = rw bad at h in cc
  ]

  -- The nested plan found under each RECORD column's name is one for that column's schema.
  abbrev ArePlanned : Plans m → Nested → Type 0
  ArePlanned plans no_columns = Unit
  ArePlanned plans (column n t rep req d s sub rest) =
      Gives t (Fits C sub) (nested_of m plans n) × ArePlanned plans rest

  Fits-has_cell :
      (schema : Nested) (cs : Columns) (n : String)
      → Fits C schema cs
      → has_cell m n cs ≡ contains n (names_of (columns schema))
  unfolding has_cell
  Fits-has_cell no_columns no_cells n h = refl
  Fits-has_cell no_columns (cell k v cs) n h = absurd h
  Fits-has_cell (column j t rep req d s sub rest) no_cells n h = absurd h
  Fits-has_cell (column j t rep req d s sub rest) (cell k v cs) n h =
      ground (arith, h.0, Fits-has_cell rest cs n h.2, eq_iff k n, eq_iff n j)

  put-Fits :
      (n : String) (t : FieldType) (rep req : Bool) (d : String) (s : ℕ) (sub rest : Nested)
      (v : Value) (cs : Columns)
      → contains n (names_of (columns rest)) ≡ false
      → FitsField C t rep req (Fits C sub) v
      → Fits C rest cs
      → Fits C (column n t rep req d s sub rest) (put m n v cs)
  unfolding put
  put-Fits n t rep req d s sub rest v cs new h later =
      rw (Fits-has_cell rest cs n later ∙ new) (refl, h, later)

  marshal_columns-Fits :
      (plans : Plans m) (schema : Nested) (r : Entries) (out : Columns)
      → IsProper schema
      → ArePlanned plans schema
      → marshal_columns m plans schema r ≡ ok out
      → Fits C schema out
  unfolding marshal_columns
  marshal_columns-Fits plans no_columns r out u p h = subst (Fits C no_columns) (ok_inj h) tt
  marshal_columns-Fits plans (column n t rep req d s sub rest) r out u p h =
      go (λ cs e. marshal_columns-Fits plans rest r cs u.2 p.1 e)
        (marshal_field m t rep req (nested_of m plans n) (find_entry n r)) refl
        (marshal_columns m plans rest r) refl h
    where
      go :
          ((cs : Columns) → marshal_columns m plans rest r ≡ ok cs → Fits C rest cs)
          → (a : Result Value)
          → marshal_field m t rep req (nested_of m plans n) (find_entry n r) ≡ a
          → (b : Result Columns) → marshal_columns m plans rest r ≡ b
          → (elim a as (λ x. Result Columns) [
            | err e ↦ err (wrap "bqsink: column" e)
            | ok o ↦ elim b as (λ x. Result Columns) [ ok cs ↦ ok (put m n o cs) | err e ↦ err e ]
          ])
            ≡ ok out
          → Fits C (column n t rep req d s sub rest) out
      go later (err e) f b q k = cc
      go later (ok o) f (err e) q k = cc
      go later (ok o) f (ok cs) q k = subst (Fits C (column n t rep req d s sub rest)) (ok_inj k) (
          put-Fits n t rep req d s sub rest o cs u.0
            (marshal_field-Fits t (Fits C sub) (nested_of m plans n) p.0 rep req (find_entry n r) o
              f)
            (later cs q))

  plan_for-absent :
      (schema : Nested) (k : String)
      → contains k (names_of (columns schema)) ≡ false
      → plan_for m schema k ≡ none
  unfolding plan_for
  plan_for-absent no_columns k h = refl
  plan_for-absent (column n t rep req d s sub rest) k h =
      ground (arith, plan_for-absent rest k, eq_iff n k, eq_iff k n)

  keep_found :
      {A : Type 0} (o x : Option A) (b : Bool)
      → b ≡ false
      → (elim o as (λ y. Option A) [ some c ↦ some c | none ↦ if b then x else none ]) ≡ o
  keep_found none x b e = rw e
  keep_found (some c) x b e = refl

  other_name :
      (n k : String) (rest : Nested)
      → contains n (names_of (columns rest)) ≡ false
      → contains k (names_of (columns rest)) ≡ true
      → str_eq n k ≡ false
  other_name n k rest new there = elim (Bool-cases (str_eq n k)) [
    | inl same ↦
        let e = ap (λ x. contains x (names_of (columns rest))) ((eq_iff n k).0 same) in
        let clash : true ≡ false = sym there ∙ sym e ∙ new in cc
    | inr apart ↦ apart
  ]

  -- A name after the first column has the plan that the columns after it give it.
  plan_for-later :
      (n : String) (t : FieldType) (rep req : Bool) (d : String) (s : ℕ) (sub rest : Nested)
      (k : String)
      → contains n (names_of (columns rest)) ≡ false
      → contains k (names_of (columns rest)) ≡ true
      → plan_for m (column n t rep req d s sub rest) k ≡ plan_for m rest k
  unfolding plan_for
  plan_for-later n t rep req d s sub rest k new there =
      keep_found (plan_for m rest k) _ (type_eq t record_type && str_eq n k)
        (ground (arith, other_name n k rest new there))

  plan_for-first :
      (n : String) (t : FieldType) (rep req : Bool) (d : String) (s : ℕ) (sub rest : Nested)
      → t ≡ record_type
      → contains n (names_of (columns rest)) ≡ false
      → plan_for m (column n t rep req d s sub rest) n
        ≡ some (λ i. if_declared m sub i (marshal_columns m (plan_for m sub) sub i))
  unfolding plan_for
  plan_for-first n t rep req d s sub rest e new =
      rw (plan_for-absent rest n new, eq_refl n, (type_eq_iff t record_type).1 e) refl

  plan_for-ArePlanned :
      (schema : Nested) (plans : Plans m)
      → IsProper schema
      → ((k : String)
          → contains k (names_of (columns schema)) ≡ true
          → plans k ≡ plan_for m schema k)
      → ArePlanned plans schema
  plan_for-ArePlanned no_columns plans u agree = tt
  plan_for-ArePlanned (column n t rep req d s sub rest) plans u agree = (
    λ e i cs h.
        let q =
          agree n (ground (arith, eq_refl n)) ∙ plan_for-first n t rep req d s sub rest e u.0 in
        let made =
          if_declared-ok sub i (marshal_columns m (plan_for m sub) sub i) cs
            (rw (nested_of, q) at h) in
        marshal_columns-Fits (plan_for m sub) sub i cs u.1
          (plan_for-ArePlanned sub (plan_for m sub) u.1 (λ k c. refl)) made.1,
    plan_for-ArePlanned rest plans u.2 (λ k there.
        agree k (ground (arith, there)) ∙ plan_for-later n t rep req d s sub rest k u.0 there),
  )

  declares-contains :
      (schema : Nested) (k : String)
      → declares m schema k ≡ true
      → contains k (names_of (columns schema)) ≡ true
  unfolding declares
  declares-contains no_columns k h = h
  declares-contains (column n t rep req d s sub rest) k h =
      ground (arith, h, declares-contains rest k, eq_iff n k, eq_iff k n)

  keys_declared :
      (schema : Nested) (r : Entries) (k : String) (v : GoValue)
      → all_declared m schema r ≡ true
      → find_entry k r ≡ some v
      → contains k (names_of (columns schema)) ≡ true
  unfolding all_declared find_entry
  keys_declared schema no_entries k v h e = cc
  keys_declared schema (entry j w r) k v h e = elim (Bool-cases (str_eq j k)) [
    | inl same ↦
        let here : declares m schema j ≡ true = ground (arith, h) in
        subst (λ x. contains x (names_of (columns schema)) ≡ true) ((eq_iff j k).0 same)
          (declares-contains schema j here)
    | inr other ↦ keys_declared schema r k v (ground (arith, h)) (rw other at e)
  ]

  -- For a schema without repeated names, and for any property C that holds of whatever a marshaler
  -- returns with the type that it declares: a row that is converted becomes exactly the schema's
  -- columns, at every depth. Each is NULL, and then not REQUIRED; or what a marshaler of the column's
  -- type returned, of which C holds; or a value of the column's type, an INTEGER within int64. A
  -- REPEATED column that is not NULL is a list of the latter two. And the row held no key but the
  -- schema's names.
  pub marshal_map-Fits :
      (schema : Nested) (r : Entries) (out : Columns)
      → IsProper schema
      → marshal_map m schema r ≡ ok out
      → Fits C schema out
        × ((k : String) (v : GoValue)
            → find_entry k r ≡ some v
            → contains k (names_of (columns schema)) ≡ true)
  unfolding marshal_map
  marshal_map-Fits schema r out u h =
      let (known, made) =
        if_declared-ok schema r (marshal_columns m (plan_for m schema) schema r) out h in
      (
        marshal_columns-Fits (plan_for m schema) schema r out u
            (plan_for-ArePlanned schema (plan_for m schema) u (λ k c. refl)) made,
        λ k v e. keys_declared schema r k v known e,
      )
