-- ===== src/StructRow/Covers.antt =====
-- A row has the columns that the schema of its plan declares.
use bqsink.Common.{
  String, ◌≡◌, refl, sym, subst, ◌⊎◌, inl, inr, Bool, true, false, Option, none, some, List, [],
  ◌∷◌, if◌then◌else◌,
}
use bqsink.Fault.{wrap, Result, ok, err, ok_inj}
use bqsink.Column.{columns, names_of}
use bqsink.Value.{Value, null, elements, row, Values, no_values, value, Columns, no_cells, cell}
use bqsink.Plan.{Conversion, PlannedField, PlanFields, no_fields, field, nested_schema}
use bqsink.StructRow.{
  Held, nil_pointer, held_list, Helds, no_held, held, Conversions, deref_value, field_by_index,
  convert, scalar_value, or_null, as_row, has_nested, is_nil, marshal_one, marshal_all, as_elements,
  marshal_sequence, counts_as_zero, marshal_value, column_value, of_struct, fill_row,
  marshal_struct,
}

abbrev pub IsRow : (Columns → Type 0) → Value → Type 0
IsRow P (row cs) = P cs
IsRow P _ = ⊥

abbrev pub IsPlain : Value → Type 0
IsPlain (row cs) = ⊥
IsPlain (elements vs) = ⊥
IsPlain _ = Unit

-- One value of a column: what its conversion gives, or, of a RECORD, NULL or a row that `P` holds of,
-- or a scalar.
abbrev pub IsElement : Option Conversion → Bool → (Columns → Type 0) → Value → Type 0
IsElement (some by) inside P v = Unit
IsElement none true P v = (v ≡ null) ⊎ IsRow P v
IsElement none false P v = IsPlain v

abbrev pub AreElements : Option Conversion → Bool → (Columns → Type 0) → Values → Type 0
AreElements c b P no_values = Unit
AreElements c b P (value v vs) = IsElement c b P v × AreElements c b P vs

abbrev pub IsGiven : Option Conversion → Bool → Bool → (Columns → Type 0) → Value → Type 0
IsGiven c false b P v = IsElement c b P v
IsGiven c true b P (elements vs) = AreElements c b P vs
IsGiven c true b P _ = ⊥

-- The cells are the plan's fields, in order: each NULL, or a list of values where the column is
-- REPEATED, or one value; and so in the rows of a RECORD column.
abbrev pub Covers : PlanFields → Columns → Type 0
Covers no_fields no_cells = Unit
Covers no_fields (cell k v cs) = ⊥
Covers (field c nested rest) no_cells = ⊥
Covers (field c nested rest) (cell k v cs) =
    (k ≡ c.name)
    × ((v ≡ null) ⊎ IsGiven c.conversion c.repeated (has_nested nested) (Covers nested) v)
    × Covers rest cs

abbrev pub keys_of : Columns → List String
keys_of no_cells = []
keys_of (cell k v cs) = k ∷ keys_of cs

Covers-keys_of :
    (plan : PlanFields) (cs : Columns)
    → Covers plan cs
    → keys_of cs ≡ names_of (columns (nested_schema plan))
unfolding nested_schema
Covers-keys_of no_fields no_cells h = refl
Covers-keys_of no_fields (cell k v cs) h = absurd h
Covers-keys_of (field c nested rest) no_cells h = absurd h
Covers-keys_of (field c nested rest) (cell k v cs) h =
    let later = Covers-keys_of rest cs h.2 in rw (h.0, later) refl

module _ (x : Conversions) where
  abbrev IfPlain : Result Value → Type 0
  IfPlain (ok v) = IsPlain v
  IfPlain (err e) = Unit

  scalar_value-IfPlain : (v : Held) → IfPlain (scalar_value x v)
  unfolding scalar_value
  scalar_value-IfPlain nil_pointer = tt
  scalar_value-IfPlain _ = tt

  or_null-IsPlain :
      (o : Option Held) (out : Value) → or_null o (scalar_value x) ≡ ok out → IsPlain out
  or_null-IsPlain none out h = subst IsPlain (ok_inj h) tt
  or_null-IsPlain (some v) out h = subst IfPlain h (scalar_value-IfPlain v)

  module _ (c : PlannedField) (nested : PlanFields) (inner : Held → Result Columns)
      (P : Columns → Type 0) (good : (v : Held) (cs : Columns) → inner v ≡ ok cs → P cs) where
    as_row-IsRow : (v : Held) (out : Value) → as_row (inner v) ≡ ok out → IsRow P out
    as_row-IsRow v out h = go (inner v) refl h
      where
        go : (r : Result Columns) → inner v ≡ r → as_row r ≡ ok out → IsRow P out
        go (ok cs) e k = subst (IsRow P) (ok_inj k) (good v cs e)
        go (err e) q k = cc

    marshal_one-IsElement :
        (fv : Held) (out : Value)
        → marshal_one x c nested inner fv ≡ ok out
        → IsElement c.conversion (has_nested nested) P out
    unfolding marshal_one
    marshal_one-IsElement fv out h = go c.conversion (has_nested nested) (is_nil fv) h
      where
        go :
            (o : Option Conversion) (b n : Bool)
            → (elim o as (λ y. Result Value) [
              | some by ↦ convert x by fv
              | none ↦
                  if n
                  then ok null
                  else if b
                  then as_row (inner fv)
                  else or_null (deref_value fv) (scalar_value x)
            ])
              ≡ ok out
            → IsElement o b P out
        go (some by) b n k = tt
        go none true true k = inl (sym (ok_inj k))
        go none false true k = subst IsPlain (ok_inj k) tt
        go none true false k = inr (as_row-IsRow fv out k)
        go none false false k = or_null-IsPlain (deref_value fv) out k

    marshal_all-AreElements :
        (vs : Helds) (out : Values)
        → marshal_all x c nested inner vs ≡ ok out
        → AreElements c.conversion (has_nested nested) P out
    unfolding marshal_all
    marshal_all-AreElements no_held out h =
        subst (AreElements c.conversion (has_nested nested) P) (ok_inj h) tt
    marshal_all-AreElements (held v vs) out h =
        go (marshal_all-AreElements vs) (marshal_one x c nested inner v) refl
          (marshal_all x c nested inner vs) refl h
      where
        go :
            ((o : Values)
              → marshal_all x c nested inner vs ≡ ok o
              → AreElements c.conversion (has_nested nested) P o)
            → (a : Result Value) → marshal_one x c nested inner v ≡ a
            → (b : Result Values) → marshal_all x c nested inner vs ≡ b
            → (elim a as (λ y. Result Values) [
              | err e ↦ err (wrap "element" e)
              | ok o ↦ elim b as (λ y. Result Values) [
                | err e ↦ err e
                | ok rest ↦ ok (value o rest)
              ]
            ])
              ≡ ok out
            → AreElements c.conversion (has_nested nested) P out
        go later (err e) p b q k = cc
        go later (ok o) p (err e) q k = cc
        go later (ok o) p (ok rest) q k =
            subst (AreElements c.conversion (has_nested nested) P) (ok_inj k)
              (marshal_one-IsElement v o p, later rest q)

    -- What a cell holds.
    abbrev IsCell : Bool → Value → Type 0
    IsCell rep v = (v ≡ null) ⊎ IsGiven c.conversion rep (has_nested nested) P v

    marshal_sequence-IsCell :
        (o : Option Held) (out : Value)
        → or_null o (marshal_sequence x c nested inner) ≡ ok out
        → IsCell true out
    marshal_sequence-IsCell none out h = inl (sym (ok_inj h))
    marshal_sequence-IsCell (some (held_list vs)) out h =
        go (marshal_all x c nested inner vs) refl h
      where
        go :
            (a : Result Values)
            → marshal_all x c nested inner vs ≡ a
            → as_elements a ≡ ok out
            → IsCell true out
        go (ok o) e k = inr (
            subst (IsGiven c.conversion true (has_nested nested) P) (ok_inj k)
              (marshal_all-AreElements vs o e))
        go (err e) q k = cc
    marshal_sequence-IsCell (some _) out h = cc

    marshal_value-IsCell :
        (fv : Held) (out : Value)
        → marshal_value x c nested inner fv ≡ ok out
        → IsCell c.repeated out
    unfolding marshal_value
    marshal_value-IsCell fv out h = go (counts_as_zero x c fv) (is_nil fv) c.repeated h
      where
        go :
            (z n rep : Bool)
            → (if z
                then ok null
                else if n
                then ok null
                else if rep
                then or_null (deref_value fv) (marshal_sequence x c nested inner)
                else marshal_one x c nested inner fv)
              ≡ ok out
            → IsCell rep out
        go true n rep k = inl (sym (ok_inj k))
        go false true rep k = inl (sym (ok_inj k))
        go false false true k = marshal_sequence-IsCell (deref_value fv) out k
        go false false false k = inr (marshal_one-IsElement fv out k)

    column_value-IsCell :
        (o : Option Held) (out : Value)
        → column_value x c nested inner o ≡ ok out
        → IsCell c.repeated out
    column_value-IsCell none out h = inl (sym (ok_inj h))
    column_value-IsCell (some fv) out h = marshal_value-IsCell fv out h

  of_struct-ok :
      (P : Columns → Type 0) (o : Option Held) (fill : Held → Result Columns) (cs : Columns)
      → ((v : Held) → fill v ≡ ok cs → P cs)
      → of_struct o fill ≡ ok cs
      → P cs
  of_struct-ok P none fill cs good h = cc
  of_struct-ok P (some v) fill cs good h = good v h

  fill_row-Covers :
      (plan : PlanFields) (v : Held) (out : Columns) → fill_row x plan v ≡ ok out → Covers plan out
  unfolding fill_row
  fill_row-Covers no_fields v out h = subst (Covers no_fields) (ok_inj h) tt
  fill_row-Covers (field c nested rest) v out h =
      go
        (λ fv cs e.
          of_struct-ok (Covers nested) (deref_value fv) (fill_row x nested) cs
            (λ w. fill_row-Covers nested w cs) e)
        (fill_row-Covers rest v) (column_value x c nested inner (field_by_index c.index v)) refl
        (fill_row x rest v) refl h
    where
      inner : Held → Result Columns
      inner fv = of_struct (deref_value fv) (fill_row x nested)

      go :
          ((fv : Held) (cs : Columns) → inner fv ≡ ok cs → Covers nested cs)
          → ((cs : Columns) → fill_row x rest v ≡ ok cs → Covers rest cs)
          → (a : Result Value) → column_value x c nested inner (field_by_index c.index v) ≡ a
          → (b : Result Columns) → fill_row x rest v ≡ b
          → (elim a as (λ y. Result Columns) [
            | err e ↦ err (wrap "bqsink: column" e)
            | ok o ↦ elim b as (λ y. Result Columns) [
              | err e ↦ err e
              | ok cs ↦ ok (cell c.name o cs)
            ]
          ])
            ≡ ok out
          → Covers (field c nested rest) out
      go deeper later (err e) p b q k = cc
      go deeper later (ok o) p (err e) q k = cc
      go deeper later (ok o) p (ok cs) q k = subst (Covers (field c nested rest)) (ok_inj k) (
        refl,
        column_value-IsCell c nested inner (Covers nested) deeper (field_by_index c.index v) o p,
        later cs q,
      )

  -- A row that marshalRow makes of a struct has exactly the columns that the schema of its plan
  -- declares, in order and at every depth: each NULL, a list where the column is REPEATED, or one
  -- value, which of a RECORD without a conversion is a row of the nested plan, and of another column
  -- without one no row and no list.
  pub marshal_struct-Covers :
      (plan : PlanFields) (v : Held) (out : Columns)
      → marshal_struct x plan v ≡ ok out
      → Covers plan out × (keys_of out ≡ names_of (columns (nested_schema plan)))
  unfolding marshal_struct
  marshal_struct-Covers plan v out h =
      let covers : Covers plan out =
        of_struct-ok (Covers plan) (deref_value v) (fill_row x plan) out
          (λ w. fill_row-Covers plan w out) h in
      (covers, Covers-keys_of plan out covers)
