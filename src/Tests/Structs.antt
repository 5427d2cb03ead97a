-- ===== src/Tests/Structs.antt =====
-- A struct with a pointer to another and a list, written as a row.
use bqsink.Common.{◌≡◌, refl, false, [], ◌∷◌}
use bqsink.Fault.{ok}
use bqsink.Value.{
  signed, null, text, integer, pos, elements, row, no_values, value, Columns, no_cells, cell,
}
use bqsink.Plan.{nested_schema}
use bqsink.StructRow.{
  Held, pointed, held_text, held_int, held_struct, held_list, no_held, held, Conversions,
  deref_value, field_by_index, scalar_value, marshal_one, marshal_all, marshal_value, fill_row,
  marshal_struct,
}
use bqsink.StructRow.Covers.{Covers, keys_of, marshal_struct-Covers}
use bqsink.Tests.Plans.{columns}

abbrev conversions : Conversions
conversions = record {
  registered = λ v. ok null;
  own = λ v. ok null;
  encode_json = λ v. ok null;
  text_of = λ b. "";
  civil = λ opt t. null;
  rat_of = λ n. n;
  is_zero = λ v. false;
}

abbrev person : Held
person = pointed (
    held_struct (
      held (held_int 5) (
        held (pointed (held_struct (held (held_text "Kyoto") no_held)))
          (held (held_list (held (held_text "a") (held (held_text "b") no_held))) no_held))))

abbrev written : Columns
written = cell "id" (integer (pos 5)) (
    cell "home" (row (cell "City" (text "Kyoto") no_cells))
      (cell "notes" (elements (value (text "a") (value (text "b") no_values))) no_cells))

writes : marshal_struct conversions columns person ≡ ok written
unfolding marshal_struct fill_row marshal_value marshal_one marshal_all scalar_value field_by_index
    deref_value signed
writes = refl

marshal_struct-Covers_example :
    Covers columns written × (keys_of written ≡ "id" ∷ "home" ∷ "notes" ∷ [])
unfolding nested_schema
marshal_struct-Covers_example = marshal_struct-Covers conversions columns person written writes
