-- ===== src/StructRow.antt =====
-- rowPlan.marshalRow of plan.go: how a struct becomes a row by its plan. What is registered for a type
-- or declared by it, the encoding as JSON, the text of bytes, the conversions of the civil package,
-- big.Rat and IsZero are parameters.
pub mod Covers
use bqsink.Common.{
  ℕ, String, Bool, true, false, not, ◌&&◌, Option, none, some, List, [], ◌∷◌, is_empty,
  if◌then◌else◌,
}
use bqsink.Fault.{Error, message, wrap, Result, ok, err}
use bqsink.Value.{
  signed, ℤ, pos, Float, Value, null, text, integer, float, boolean, rational, time, date,
  civil_time, datetime, bytes, elements, row, Values, no_values, value, Columns, no_cells, cell,
}
use bqsink.Plan.{
  Conversion, registered, own, raw_message_text, as_json, civil_of, PlannedField, PlanFields,
  no_fields, field,
}

mutual
  -- reflect.Value. A nil slice is an empty one, an array a slice; an integer is its 64-bit pattern.
  pub data Held : Type 0 where
    nil_pointer : Held
    pointed : Held → Held
    held_text : String → Held
    held_bool : Bool → Held
    held_int small_uint wide_uint : ℕ → Held
    held_float : Float → Held
    held_bytes : List ℕ → Held
    held_time held_date held_civil_time held_datetime held_rat : ℕ → Held
    held_struct held_list : Helds → Held
    held_other : ℕ → Held

  pub data Helds : Type 0 where
    no_held : Helds
    held : Held → Helds → Helds

pub record Conversions : Type 0 where
  pub registered : Held → Result Value
  pub own : Held → Result Value
  pub encode_json : Held → Result Value
  pub text_of : List ℕ → String
  -- of the civil package, by the option
  pub civil : String → ℕ → Value
  -- new(big.Rat).SetUint64
  pub rat_of : ℕ → ℕ
  -- IsZero, the type's own or reflection's, of a value that is no nil pointer
  pub is_zero : Held → Bool

-- derefValue; an invalid value is `none`.
unfoldable pub deref_value : Held → Option Held
deref_value nil_pointer = none
deref_value (pointed v) = deref_value v
deref_value v = some v

abbrev nth_held : ℕ → Helds → Option Held
nth_held n no_held = none
nth_held ℕ.zero (held v vs) = some v
nth_held (ℕ.suc n) (held v vs) = nth_held n vs

abbrev field_of : ℕ → Held → Option Held
field_of i (held_struct vs) = nth_held i vs
field_of i v = none

-- The value on the way to a field: what a pointer holds.
abbrev through : Held → Option Held
through nil_pointer = none
through (pointed v) = some v
through v = some v

-- reflect.Value.FieldByIndexErr of a struct; a nil pointer on the way is `none`.
unfoldable pub field_by_index : List ℕ → Held → Option Held
field_by_index [] v = some v
field_by_index (i ∷ is) v = elim (field_of i v) [
  | none ↦ none
  | some fv ↦ elim is [
    | [] ↦ some fv
    | _ ↦ elim (through fv) [ none ↦ none | some inner ↦ field_by_index is inner ]
  ]
]

abbrev or_null : Option Held → (Held → Result Value) → Result Value
or_null none f = ok null
or_null (some v) f = f v

abbrev as_row : Result Columns → Result Value
as_row (ok cs) = ok (row cs)
as_row (err e) = err e

abbrev has_nested : PlanFields → Bool
has_nested no_fields = false
has_nested (field c nested rest) = true

abbrev is_nil : Held → Bool
is_nil nil_pointer = true
is_nil v = false

abbrev as_elements : Result Values → Result Value
as_elements (ok vs) = ok (elements vs)
as_elements (err e) = err e

-- isEmptySequence of what derefValue gives
abbrev is_empty_sequence : Option Held → Bool
is_empty_sequence none = true
is_empty_sequence (some (held_list no_held)) = true
is_empty_sequence (some (held_bytes [])) = true
is_empty_sequence _ = false

abbrev of_struct : Option Held → (Held → Result Columns) → Result Columns
of_struct none fill = err (message "bqsink: cannot write a nil row")
of_struct (some v) fill = fill v

module _ (x : Conversions) where
  -- marshalRawMessage of a value that is no nil pointer
  abbrev raw_text : Held → Result Value
  raw_text (held_bytes b) = if is_empty b then ok null else ok (text (x.text_of b))
  raw_text _ = err (message "expected a json.RawMessage")

  -- the function that marshalCivilOf makes, of a value that is no nil pointer
  abbrev civil_value : String → Held → Result Value
  civil_value opt (held_time t) = ok (x.civil opt t)
  civil_value opt _ = err (message "expected a time.Time")

  abbrev by_conversion : Conversion → Held → Result Value
  by_conversion registered v = x.registered v
  by_conversion own v = x.own v
  by_conversion raw_message_text v = raw_text v
  by_conversion as_json v = x.encode_json v
  by_conversion (civil_of opt) v = civil_value opt v

  -- fieldPlan.marshal: each conversion makes a nil pointer NULL.
  unfoldable pub convert : Conversion → Held → Result Value
  convert c fv = elim (deref_value fv) [ none ↦ ok null | some v ↦ by_conversion c v ]

  -- scalarValue and wellKnownValue
  unfoldable pub scalar_value : Held → Result Value
  scalar_value (held_text s) = ok (text s)
  scalar_value (held_bool b) = ok (boolean b)
  scalar_value (held_int n) = ok (integer (signed n))
  scalar_value (small_uint n) = ok (integer (pos n))
  scalar_value (wide_uint n) = ok (rational (x.rat_of n))
  scalar_value (held_float f) = ok (float f)
  scalar_value (held_bytes b) = ok (bytes b)
  scalar_value (held_time t) = ok (time t)
  scalar_value (held_date d) = ok (date d)
  scalar_value (held_civil_time t) = ok (civil_time t)
  scalar_value (held_datetime t) = ok (datetime t)
  scalar_value (held_rat r) = ok (rational r)
  scalar_value _ = err (message "cannot convert into a BigQuery value")

  -- marshalScalar, given the nested plan and what it makes of the value
  unfoldable pub marshal_one :
      PlannedField → PlanFields → (Held → Result Columns) → Held → Result Value
  marshal_one c nested inner fv = elim c.conversion [
    | some by ↦ convert by fv
    | none ↦
        if is_nil fv
        then ok null
        else if has_nested nested
        then as_row (inner fv)
        else or_null (deref_value fv) scalar_value
  ]

  unfoldable pub marshal_all :
      PlannedField → PlanFields → (Held → Result Columns) → Helds → Result Values
  marshal_all c nested inner no_held = ok no_values
  marshal_all c nested inner (held v vs) = elim (marshal_one c nested inner v) [
    | err e ↦ err (wrap "element" e)
    | ok out ↦ elim (marshal_all c nested inner vs) [
      | err e ↦ err e
      | ok rest ↦ ok (value out rest)
    ]
  ]

  -- marshalRepeated of a value that is no nil pointer
  abbrev marshal_sequence :
      PlannedField → PlanFields → (Held → Result Columns) → Held → Result Value
  marshal_sequence c nested inner (held_list vs) = as_elements (marshal_all c nested inner vs)
  marshal_sequence c nested inner _ = err (message "a value of another type")

  -- isZeroValue
  abbrev is_zero_value : Held → Bool
  is_zero_value nil_pointer = true
  is_zero_value v = x.is_zero v

  -- Whether the nullifzero option makes the value NULL.
  abbrev counts_as_zero : PlannedField → Held → Bool
  counts_as_zero c fv =
      c.null_if_zero
      && (if c.repeated then is_empty_sequence (deref_value fv) else is_zero_value fv)

  unfoldable pub marshal_value :
      PlannedField → PlanFields → (Held → Result Columns) → Held → Result Value
  marshal_value c nested inner fv =
      if counts_as_zero c fv
      then ok null
      else if is_nil fv
      then ok null
      else if c.repeated
      then or_null (deref_value fv) (marshal_sequence c nested inner)
      else marshal_one c nested inner fv

  -- A field that a nil embedded pointer is on the way to has no value to write.
  abbrev column_value :
      PlannedField → PlanFields → (Held → Result Columns) → Option Held → Result Value
  column_value c nested inner none = ok null
  column_value c nested inner (some fv) = marshal_value c nested inner fv

  -- The loop of marshalRow over the fields, once the row is a struct.
  unfoldable pub fill_row : PlanFields → Held → Result Columns
  fill_row no_fields v = ok no_cells
  fill_row (field c nested rest) v =
      let inner : Held → Result Columns = λ fv. of_struct (deref_value fv) (fill_row nested) in
      elim (column_value c nested inner (field_by_index c.index v)) [
        | err e ↦ err (wrap "bqsink: column" e)
        | ok out ↦ elim (fill_row rest v) [ err e ↦ err e | ok cells ↦ ok (cell c.name out cells) ]
      ]

  -- rowPlan.marshalRow
  unfoldable pub marshal_struct : PlanFields → Held → Result Columns
  marshal_struct plan rv = of_struct (deref_value rv) (fill_row plan)
