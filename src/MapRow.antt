-- ===== src/MapRow.antt =====
-- mapPlan of maprow.go: how a row given as a map is converted into the columns of a schema, and
-- buildMapPlanFor. What a registered Marshaler or a value's own FieldMarshaler gives is a parameter.
pub mod Fits
pub mod Scalars
pub mod Typed
pub mod Integers
use bqsink.Common.{
  ℕ, suc, ◌-◌, ◌<◌, String, Bool, true, false, not, ◌&&◌, ◌||◌, Option, none, some, List, ltb, leb,
  ◌==◌, str_eq, if◌then◌else◌,
}
use bqsink.Fault.{Error, message, wrap, Result, ok, err, wrapping, ◌>>=◌, ◌>>◌}
use bqsink.Column.{
  FieldType, type_eq, string_type, bytes_type, integer_type, float_type, boolean_type,
  timestamp_type, record_type, date_type, time_type, datetime_type, numeric_type, big_numeric_type,
  geography_type, json_type, Nested, no_columns, column,
}
use bqsink.Value.{
  ℤ, pos, negsuc, int64_boundary, uint64_modulus, signed, Float, nan, infinite, finite, GoValue,
  string_value, int_value, uint_value, float_value, bool_value, rat_value, time_value, date_value,
  civil_time_value, datetime_value, bytes_value, raw_message, named_bytes, pointer, any_slice,
  any_map, Items, no_items, item, Entries, no_entries, entry, Value, null, text, integer, float,
  boolean, rational, time, date, civil_time, datetime, bytes, raw_json, elements, row, Values,
  no_values, value, Columns, no_cells, cell, find_entry, is_nil_any,
}
use Prim.Native.Nat.{◌%◌}

-- int64FromUint64
unfoldable pub int64_from_uint64 : ℕ → Result Value
int64_from_uint64 bits =
    let v = bits % uint64_modulus in
    if ltb (int64_boundary - 1) v
    then err (message "a uint64 value overflows INT64")
    else ok (integer (pos v))

-- v >= 2^63 || v < -2^63, of the float with this integral part and this rest
unfoldable pub overflows : ℤ → Bool → Bool
overflows (pos n) rest = leb int64_boundary n
overflows (negsuc n) rest = leb int64_boundary n || (n == (int64_boundary - 1) && rest)

-- int64FromFloat
unfoldable pub int64_from_float : Float → Result Value
unfolding overflows
int64_from_float nan = err (message "NaN cannot be written to an INTEGER column")
int64_from_float infinite = err (message "a float64 value does not fit in an INTEGER column")
int64_from_float (finite n rest) =
    if overflows n rest
    then err (message "a float64 value overflows INT64")
    else if rest
    then err (message "a float64 value has a fractional part, which an INTEGER column cannot hold")
    else ok (integer n)

unfoldable pub marshal_integer : GoValue → Result Value
marshal_integer (int_value bits) = ok (integer (signed bits))
marshal_integer (uint_value bits) = int64_from_uint64 bits
marshal_integer (float_value v) = int64_from_float v
marshal_integer _ = err (message "an INTEGER column needs an integer or a whole float")

abbrev unfit : Result Value
unfit = err (message "the column needs a value of another type")

abbrev to_text : GoValue → Result Value
to_text (string_value s) = ok (text s)
to_text _ = unfit

abbrev to_float : GoValue → Result Value
to_float (float_value v) = ok (float v)
to_float _ = unfit

-- only a *big.Rat
abbrev to_rational : GoValue → Result Value
to_rational (pointer (rat_value r)) = ok (rational r)
to_rational _ = unfit

abbrev to_boolean : GoValue → Result Value
to_boolean (bool_value b) = ok (boolean b)
to_boolean _ = unfit

abbrev to_time : GoValue → Result Value
to_time (time_value t) = ok (time t)
to_time _ = unfit

abbrev to_date : GoValue → Result Value
to_date (date_value d) = ok (date d)
to_date _ = unfit

abbrev to_civil_time : GoValue → Result Value
to_civil_time (civil_time_value t) = ok (civil_time t)
to_civil_time _ = unfit

abbrev to_datetime : GoValue → Result Value
to_datetime (datetime_value t) = ok (datetime t)
to_datetime _ = unfit

abbrev to_bytes : GoValue → Result Value
to_bytes (bytes_value b) = ok (bytes b)
to_bytes (raw_message b) = ok (bytes b)
to_bytes (named_bytes b) = ok (bytes b)
to_bytes _ = unfit

-- A slice of bytes under another name than json.RawMessage is not one of them.
abbrev to_json : GoValue → Result Value
to_json (raw_message b) = ok (raw_json b)
to_json (bytes_value b) = ok (bytes b)
to_json (string_value s) = ok (text s)
to_json _ = unfit

-- marshalNestedRecord, given the conversion of the column's own plan
abbrev to_record : (Entries → Result Columns) → GoValue → Result Value
to_record nested (any_map m) = elim (nested m) [ ok cs ↦ ok (row cs) | err e ↦ err e ]
to_record nested _ = unfit

unfoldable pub marshal_accepted : FieldType → (Entries → Result Columns) → GoValue → Result Value
marshal_accepted string_type nested v = to_text v
marshal_accepted geography_type nested v = to_text v
marshal_accepted integer_type nested v = marshal_integer v
marshal_accepted float_type nested v = to_float v
marshal_accepted numeric_type nested v = to_rational v
marshal_accepted big_numeric_type nested v = to_rational v
marshal_accepted boolean_type nested v = to_boolean v
marshal_accepted timestamp_type nested v = to_time v
marshal_accepted date_type nested v = to_date v
marshal_accepted time_type nested v = to_civil_time v
marshal_accepted datetime_type nested v = to_datetime v
marshal_accepted bytes_type nested v = to_bytes v
marshal_accepted json_type nested v = to_json v
marshal_accepted record_type nested v = to_record nested v
marshal_accepted _ nested v = err (message "cannot write the value into a column of this type")

-- A Marshaler that applies to a value: the type that it declares and what it returns for it.
pub record Claim : Type 0 where
  pub field_type : FieldType
  pub result : Result Value

pub record Marshalers : Type 0 where
  pub registered : GoValue → Option Claim
  pub own : GoValue → Option Claim

abbrev claimed : FieldType → Claim → Result Value
claimed t c =
    if type_eq c.field_type t
    then c.result
    else err (message "the marshaler declares another type than the column's")

module _ (m : Marshalers) where
  unfoldable pub marshal_scalar : FieldType → (Entries → Result Columns) → GoValue → Result Value
  marshal_scalar t nested v = elim (m.registered v) [
    | some c ↦ claimed t c
    | none ↦ elim (m.own v) [ some c ↦ claimed t c | none ↦ marshal_accepted t nested v ]
  ]

  unfoldable pub marshal_items : FieldType → (Entries → Result Columns) → Items → Result Values
  marshal_items t nested no_items = ok no_values
  marshal_items t nested (item v vs) =
      if is_nil_any v
      then err (message "a repeated column cannot hold a NULL element")
      else elim (marshal_scalar t nested v) [
        | err e ↦ err (wrap "element" e)
        | ok out ↦ elim (marshal_items t nested vs) [
          | ok rest ↦ ok (value out rest)
          | err e ↦ err e
        ]
      ]

  abbrev to_elements : FieldType → (Entries → Result Columns) → GoValue → Result Value
  to_elements t nested (any_slice vs) = elim (marshal_items t nested vs) [
    | ok out ↦ ok (elements out)
    | err e ↦ err e
  ]
  to_elements t nested _ = err (message "a repeated column needs a []any")

  -- marshalRepeated or marshalScalar
  abbrev dispatch : FieldType → Bool → (Entries → Result Columns) → GoValue → Result Value
  dispatch t true nested v = to_elements t nested v
  dispatch t false nested v = marshal_scalar t nested v

  abbrev absent : Bool → Result Value
  absent true = err (message "a REQUIRED column cannot be NULL")
  absent false = ok null

  -- marshalField, given what the row holds under the column's name
  unfoldable pub marshal_field :
      FieldType
      → (repeated required : Bool) → (Entries → Result Columns)
      → Option GoValue
      → Result Value
  marshal_field t rep req nested none = absent req
  marshal_field t rep req nested (some v) =
      if is_nil_any v then absent req else dispatch t rep nested v

  unfoldable pub declares : Nested → String → Bool
  declares no_columns k = false
  declares (column n t rep req d s sub rest) k = str_eq n k || declares rest k

  -- Every key of the row is a column's name.
  unfoldable pub all_declared : Nested → Entries → Bool
  all_declared schema no_entries = true
  all_declared schema (entry k v es) = declares schema k && all_declared schema es

  abbrev if_declared : Nested → Entries → Result Columns → Result Columns
  if_declared schema r out =
      if all_declared schema r
      then out
      else err (message "bqsink: row has a column which the schema does not declare")

  unfoldable pub has_cell : String → Columns → Bool
  has_cell n no_cells = false
  has_cell n (cell k v cs) = str_eq k n || has_cell n cs

  -- out[field.Name] = value, once the columns after it are in the map: a later one of the name stays.
  unfoldable pub put : String → Value → Columns → Columns
  put n v cs = if has_cell n cs then cs else cell n v cs

  -- The conversions of the nested plans, by the RECORD column's name.
  abbrev pub Plans : Type 0
  Plans = String → Option (Entries → Result Columns)

  -- p.nested[field.Name] and marshalMap of what is there
  abbrev pub nested_of : Plans → String → Entries → Result Columns
  nested_of plans n inner = elim (plans n) [
    | some convert ↦ convert inner
    | none ↦ err (message "a RECORD column with no plan for its nested schema")
  ]

  -- The loop of marshalMap over the schema's columns.
  unfoldable pub marshal_columns : Plans → Nested → Entries → Result Columns
  marshal_columns plans no_columns r = ok no_cells
  marshal_columns plans (column n t rep req d s sub rest) r =
      elim (marshal_field t rep req (nested_of plans n) (find_entry n r)) [
        | err e ↦ err (wrap "bqsink: column" e)
        | ok out ↦ elim (marshal_columns plans rest r) [ ok cs ↦ ok (put n out cs) | err e ↦ err e ]
      ]

  -- buildMapPlanFor: the plan of each RECORD column's own schema, under its name; of columns of one
  -- name the last RECORD's.
  unfoldable pub plan_for : Nested → Plans
  plan_for no_columns k = none
  plan_for (column n t rep req d s sub rest) k =
      let here : Entries → Result Columns =
        λ inner. if_declared sub inner (marshal_columns (plan_for sub) sub inner) in
      elim (plan_for rest k) [
        | some convert ↦ some convert
        | none ↦ if type_eq t record_type && str_eq n k then some here else none
      ]

  -- marshalMap of the plan that is made of the schema
  unfoldable pub marshal_map : Nested → Entries → Result Columns
  marshal_map schema r = if_declared schema r (marshal_columns (plan_for schema) schema r)

  -- mapPlan.marshalRow
  unfoldable pub marshal_row : Nested → GoValue → Result Columns
  marshal_row schema (any_map r) = marshal_map schema r
  marshal_row schema (pointer v) = marshal_row schema v
  marshal_row schema v =
      if is_nil_any v
      then err (message "bqsink: cannot write a nil map[string]any row")
      else err (message "bqsink: cannot write a row that is no map[string]any")
