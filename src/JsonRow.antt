-- ===== src/JsonRow.antt =====
-- jsonrow.go: how a row's values are rendered for a load job and for the Storage Write API. The texts
-- of times and dates, json.Valid, the conversions between bytes and text and the digits of a rational
-- number are parameters; so are the bytes that the JSON encoder writes, and which times and values of
-- a marshaler's own it accepts.
pub mod Renders
use bqsink.Common.{
  ℕ, ◌<◌, String, Bool, true, false, not, ◌&&◌, Option, none, some, List, [], is_empty, ltb,
  if◌then◌else◌,
}
use bqsink.Common.Assoc.{lookup}
use bqsink.Fault.{Error, message, wrap, Result, ok, err}
use bqsink.Column.{
  FieldType, record_type, json_type, big_numeric_type, FieldSchema, Schema, columns,
}
use bqsink.Diff.{by_name}
use bqsink.Value.{
  ℤ, Value, null, text, integer, float, boolean, rational, time, date, civil_time, datetime, bytes,
  raw_json, elements, row, foreign, Values, no_values, value, Columns, no_cells, cell, Float, nan,
  infinite, finite,
}

pub data Dialect : Type 0 where
  load_job storage_write : Dialect

mutual
  -- What is handed to the JSON encoder. A value that it takes as it is stays a `plain` one.
  pub data Json : Type 0 where
    json_null : Json
    json_text : String → Json
    json_integer : ℤ → Json
    embedded : List ℕ → Json
    plain : Value → Json
    json_array : JsonItems → Json
    json_object : JsonFields → Json

  pub data JsonItems : Type 0 where
    no_items : JsonItems
    json_item : Json → JsonItems → JsonItems

  pub data JsonFields : Type 0 where
    no_fields : JsonFields
    json_field : String → Json → JsonFields → JsonFields

pub record Texts : Type 0 where
  -- time.Time: Format(time.RFC3339Nano) and UnixMicro
  pub format_time : ℕ → String
  pub unix_micro : ℕ → ℤ
  pub date_text : ℕ → String
  pub civil_time_text : ℕ → String
  pub datetime_text : ℕ → String
  pub bytes_of : String → List ℕ
  pub text_of : List ℕ → String
  pub is_valid : List ℕ → Bool
  -- *big.Rat: IsInt, Num().String() and FloatString
  pub is_int : ℕ → Bool
  pub num_text : ℕ → String
  pub float_text : ℕ → ℕ → String
  -- what json.Encoder writes for an object, without the newline
  pub encoded : JsonFields → List ℕ
  -- json.Encoder takes a time.Time, and a value of a type that is not listed in `Value`
  pub encodes_time : ℕ → Bool
  pub encodes_foreign : ℕ → Bool

abbrev is_big_numeric : FieldType → Bool
is_big_numeric big_numeric_type = true
is_big_numeric _ = false

-- decimalScale, with numericScale and bigNumericScale
unfoldable pub decimal_scale : FieldSchema → ℕ
decimal_scale f = if ltb 0 f.scale then f.scale else if is_big_numeric f.field_type then 38 else 9

module _ (x : Texts) where
  unfoldable pub decimal_string : ℕ → FieldSchema → String
  decimal_string r f = if x.is_int r then x.num_text r else x.float_text r (decimal_scale f)

  abbrev json_text_of : Value → Option (List ℕ)
  json_text_of (raw_json b) = some b
  json_text_of (bytes b) = some b
  json_text_of (text s) = some (x.bytes_of s)
  json_text_of _ = none

  abbrev render_json : Dialect → List ℕ → Result Json
  render_json storage_write b = if is_empty b then ok json_null else ok (json_text (x.text_of b))
  render_json load_job b =
      if is_empty b
      then ok json_null
      else if x.is_valid b
      then ok (embedded b)
      else err (message "a JSON column was given text that is not valid JSON")

  unfoldable pub json_column_value : Value → Dialect → Result Json
  json_column_value v dialect = elim (json_text_of v) [
    | some b ↦ render_json dialect b
    | none ↦ err (message "a JSON column needs JSON text")
  ]

  abbrev render_time : Dialect → ℕ → Json
  render_time storage_write t = json_integer (x.unix_micro t)
  render_time load_job t = json_text (x.format_time t)

  -- The type switch at the end of jsonElement.
  unfoldable pub json_scalar : Value → FieldSchema → Dialect → Json
  json_scalar (time t) f dialect = render_time dialect t
  json_scalar (date d) f dialect = json_text (x.date_text d)
  json_scalar (civil_time t) f dialect = json_text (x.civil_time_text t)
  json_scalar (datetime t) f dialect = json_text (x.datetime_text t)
  json_scalar (rational r) f dialect = json_text (decimal_string r f)
  json_scalar v f dialect = plain v

  pub data Branch : Type 0 where
    as_record as_json as_scalar : Branch

  abbrev branch_of : FieldType → Branch
  branch_of record_type = as_record
  branch_of json_type = as_json
  branch_of _ = as_scalar

  -- jsonElement of a value that is neither nil nor a map
  abbrev json_leaf : Value → FieldSchema → Dialect → Result Json
  json_leaf v f dialect = elim (branch_of f.field_type) [
    | as_record ↦ err (message "a RECORD column needs a map[string]bigquery.Value")
    | as_json ↦ json_column_value v dialect
    | as_scalar ↦ ok (json_scalar v f dialect)
  ]

  -- jsonElement of a map, given what its entries are rendered to
  abbrev json_map : Columns → FieldSchema → Dialect → Result JsonFields → Result Json
  json_map cs f dialect rendered = elim (branch_of f.field_type) [
    | as_record ↦ elim rendered [ ok fs ↦ ok (json_object fs) | err e ↦ err e ]
    | as_json ↦ json_column_value (row cs) dialect
    | as_scalar ↦ ok (json_scalar (row cs) f dialect)
  ]

  abbrev json_list : Result JsonItems → Result Json
  json_list (ok js) = ok (json_array js)
  json_list (err e) = err e

  -- jsonValue, given the renderings of the value as a list and as one element
  abbrev json_value : FieldSchema → Value → Result JsonItems → Result Json → Result Json
  json_value f null as_list as_one =
      if f.required then err (message "a REQUIRED column cannot be NULL") else ok json_null
  json_value f (elements vs) as_list as_one = if f.repeated then json_list as_list else as_one
  json_value f v as_list as_one =
      if f.repeated then err (message "a repeated column needs a []bigquery.Value") else as_one

  abbrev add_field : String → Result Json → Result JsonFields → Result JsonFields
  add_field n (ok j) (ok fs) = ok (json_field n j fs)
  add_field n (ok j) (err e) = err e
  add_field n (err e) fs = err (wrap "bqsink: column" e)

  abbrev add_item : Result Json → Result JsonItems → Result JsonItems
  add_item (ok j) (ok js) = ok (json_item j js)
  add_item (ok j) (err e) = err e
  add_item (err e) js = err (wrap "element" e)

  abbrev with_field : Option FieldSchema → (FieldSchema → Result JsonFields) → Result JsonFields
  with_field none add = err (message "bqsink: the schema has no column of a cell's name")
  with_field (some f) add = add f

  unfoldable mutual
    -- jsonElement
    pub json_element : Value → FieldSchema → Dialect → Result Json
    json_element null f dialect = ok json_null
    json_element (row cs) f dialect =
        json_map cs f dialect (json_columns cs (columns f.schema) dialect)
    json_element v f dialect = json_leaf v f dialect

    -- the loop of jsonValue over a list
    pub json_elements : Values → FieldSchema → Dialect → Result JsonItems
    json_elements no_values f dialect = ok no_items
    json_elements (value v vs) f dialect =
        add_item (json_element v f dialect) (json_elements vs f dialect)

    -- jsonObject
    pub json_columns : Columns → Schema → Dialect → Result JsonFields
    json_columns no_cells schema dialect = ok no_fields
    json_columns (cell n v cs) schema dialect = with_field (lookup n (by_name [] schema)) (λ f.
        add_field n (json_value f v (items_of v f dialect) (json_element v f dialect))
          (json_columns cs schema dialect))

    pub items_of : Value → FieldSchema → Dialect → Result JsonItems
    items_of (elements vs) f dialect = json_elements vs f dialect
    items_of v f dialect = ok no_items

  -- json.Encoder has no JSON for a NaN or an infinite float.
  unfoldable pub encodes_float : Float → Bool
  encodes_float nan = false
  encodes_float infinite = false
  encodes_float (finite n rest) = true

  -- json.Encoder takes a value as it is.
  unfoldable mutual
    pub encodes_value : Value → Bool
    encodes_value (float v) = encodes_float v
    encodes_value (raw_json b) = x.is_valid b
    encodes_value (time t) = x.encodes_time t
    encodes_value (elements vs) = encodes_values vs
    encodes_value (row cs) = encodes_cells cs
    encodes_value (foreign n) = x.encodes_foreign n
    encodes_value v = true

    pub encodes_values : Values → Bool
    encodes_values no_values = true
    encodes_values (value v vs) = encodes_value v && encodes_values vs

    pub encodes_cells : Columns → Bool
    encodes_cells no_cells = true
    encodes_cells (cell n v cs) = encodes_value v && encodes_cells cs

  -- json.Encoder takes a rendered object.
  unfoldable mutual
    pub encodes : Json → Bool
    encodes (plain v) = encodes_value v
    encodes (json_array js) = encodes_items js
    encodes (json_object fs) = encodes_fields fs
    encodes j = true

    pub encodes_items : JsonItems → Bool
    encodes_items no_items = true
    encodes_items (json_item j js) = encodes j && encodes_items js

    pub encodes_fields : JsonFields → Bool
    encodes_fields no_fields = true
    encodes_fields (json_field n j fs) = encodes j && encodes_fields fs

  abbrev encoded_object : Result JsonFields → Result (List ℕ)
  encoded_object (err e) = err e
  encoded_object (ok fs) =
      if encodes_fields fs then ok (x.encoded fs) else err (message "bqsink: encode row as JSON")

  -- encodeRow
  unfoldable pub encode_row : Columns → Schema → Dialect → Result (List ℕ)
  encode_row cs schema dialect = encoded_object (json_columns cs schema dialect)
