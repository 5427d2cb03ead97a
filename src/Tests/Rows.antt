-- ===== src/Tests/Rows.antt =====
-- A row of three columns, one of them REPEATED and one a RECORD, converted_row and rendered.
use bqsink.Common.{
  ◌≡◌, ◌≢◌, ◌↔◌, refl, true, false, none, some, [], String, contains, if◌then◌else◌,
}
use bqsink.Fault.{message, ok, err}
use bqsink.Column.{
  string_type, integer_type, record_type, type_eq, Nested, no_columns, column, columns, names_of,
}
use bqsink.Diff.Nesting.{IsProper}
use bqsink.Value.{
  pos, negsuc, FitsInt64, finite, GoValue, string_value, float_value, any_slice, any_map, no_items,
  item, Entries, no_entries, entry, text, integer, elements, row, no_values, value, Columns,
  no_cells, cell, find_entry, is_nil_any, untyped_nil, null,
}
use bqsink.MapRow.{
  Marshalers, marshal_map, marshal_columns, marshal_field, marshal_items, marshal_scalar,
  marshal_accepted, marshal_integer, int64_from_float, overflows, declares, all_declared, has_cell,
  put, plan_for,
}
use bqsink.MapRow.Fits.{Fits, AreClaimed}
use bqsink.MapRow.Typed.{marshal_map-Fits}
use bqsink.MapRow.Integers.{number_of, marshal_integer-exact}
use bqsink.JsonRow.{Texts, storage_write, JsonFields, json_columns, encode_row}
use bqsink.JsonRow.Renders.{keys_of, finite_row, IsBuiltIn, marshal_map-encode_row}

abbrev place : Nested
place = column "city" string_type false true "" 0 no_columns no_columns

abbrev visits : Nested
visits = column "id" integer_type false true "" 0 no_columns (
    column "tags" string_type true false "" 0 no_columns
      (column "place" record_type false false "" 0 place no_columns))

-- Nothing is registered, and no type has a marshaler of its own.
abbrev plain_values : Marshalers
plain_values = record { registered = λ v. none; own = λ v. none }

abbrev request : Entries
request = entry "tags" (any_slice (item (string_value "a") (item (string_value "b") no_items))) (
    entry "id" (float_value (finite (pos 7) false))
      (entry "place" (any_map (entry "city" (string_value "Kyoto") no_entries)) no_entries))

abbrev converted_row : Columns
converted_row = cell "id" (integer (pos 7)) (
    cell "tags" (elements (value (text "a") (value (text "b") no_values)))
      (cell "place" (row (cell "city" (text "Kyoto") no_cells)) no_cells))

converts : marshal_map plain_values visits request ≡ ok converted_row
unfolding marshal_map marshal_columns marshal_field marshal_items marshal_scalar marshal_accepted
    marshal_integer int64_from_float overflows declares all_declared find_entry is_nil_any has_cell
    put plan_for type_eq
converts = refl

plain_values-AreClaimed : AreClaimed IsBuiltIn plain_values
plain_values-AreClaimed = record { registered = λ v c out e h. cc; own = λ v c out e h. cc }

-- A required column that the row leaves out is refused, whatever else it holds.
refuses_null :
    marshal_map plain_values place (entry "city" untyped_nil no_entries)
    ≢ ok (cell "city" null no_cells)
unfolding marshal_map marshal_columns marshal_field declares all_declared find_entry is_nil_any
refuses_null h = cc

visits-IsProper : IsProper visits
visits-IsProper = (refl, tt, (refl, tt, (refl, (refl, tt, tt), tt)))

marshal_map-Fits_example :
    Fits IsBuiltIn visits converted_row
    × ((k : String) (v : GoValue)
        → find_entry k request ≡ some v
        → contains k (names_of (columns visits)) ≡ true)
marshal_map-Fits_example =
    marshal_map-Fits IsBuiltIn plain_values plain_values-AreClaimed visits request converted_row
      visits-IsProper converts

-- Texts that are all empty: what they are does not matter here.
abbrev blank : Texts
blank = record {
  format_time = λ t. "";
  unix_micro = λ t. pos t;
  date_text = λ d. "";
  civil_time_text = λ t. "";
  datetime_text = λ t. "";
  bytes_of = λ s. [];
  text_of = λ b. "";
  is_valid = λ b. true;
  is_int = λ r. true;
  num_text = λ r. "";
  float_text = λ r n. "";
  encoded = λ fs. [];
  encodes_time = λ t. true;
  encodes_foreign = λ n. false;
}

marshal_map-encode_row_example :
    (fs : JsonFields) × (json_columns blank converted_row (columns visits) storage_write ≡ ok fs)
    × ((k : String) → contains k (keys_of fs) ≡ contains k (names_of (columns visits)))
    × (encode_row blank converted_row (columns visits) storage_write ≡ (
        if finite_row converted_row
        then ok (blank.encoded fs)
        else err (message "bqsink: encode row as JSON")))
marshal_map-encode_row_example =
    marshal_map-encode_row blank plain_values visits request converted_row plain_values-AreClaimed
      visits-IsProper converts

marshal_integer-exact_example :
    (marshal_integer (float_value (finite (negsuc 9223372036854775807) false))
      ≡ ok (integer (negsuc 9223372036854775807)))
    ↔ ((number_of (float_value (finite (negsuc 9223372036854775807) false))
          ≡ some (negsuc 9223372036854775807))
        × FitsInt64 (negsuc 9223372036854775807))
marshal_integer-exact_example =
    marshal_integer-exact (float_value (finite (negsuc 9223372036854775807) false))
      (negsuc 9223372036854775807)
