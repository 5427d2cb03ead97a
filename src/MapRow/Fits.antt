-- ===== src/MapRow/Fits.antt =====
-- The values that a column of a schema can hold.
use bqsink.Common.{◌≡◌, ◌⊎◌, Bool, true, false, Option, some}
use bqsink.Fault.{ok}
use bqsink.Column.{
  FieldType, string_type, bytes_type, integer_type, float_type, boolean_type, timestamp_type,
  record_type, date_type, time_type, datetime_type, numeric_type, big_numeric_type, geography_type,
  json_type, Nested, no_columns, column,
}
use bqsink.Value.{
  FitsInt64, GoValue, Value, null, text, integer, float, boolean, rational, time, date, civil_time,
  datetime, bytes, raw_json, elements, row, Values, no_values, value, Columns, no_cells, cell,
}
use bqsink.MapRow.{Claim, Marshalers}

abbrev pub IsText : Value → Type 0
IsText (text s) = Unit
IsText _ = ⊥

abbrev pub IsInteger : Value → Type 0
IsInteger (integer n) = FitsInt64 n
IsInteger _ = ⊥

abbrev pub IsFloat : Value → Type 0
IsFloat (float v) = Unit
IsFloat _ = ⊥

abbrev pub IsRational : Value → Type 0
IsRational (rational r) = Unit
IsRational _ = ⊥

abbrev pub IsBoolean : Value → Type 0
IsBoolean (boolean b) = Unit
IsBoolean _ = ⊥

abbrev pub IsTime : Value → Type 0
IsTime (time t) = Unit
IsTime _ = ⊥

abbrev pub IsDate : Value → Type 0
IsDate (date d) = Unit
IsDate _ = ⊥

abbrev pub IsCivilTime : Value → Type 0
IsCivilTime (civil_time t) = Unit
IsCivilTime _ = ⊥

abbrev pub IsDatetime : Value → Type 0
IsDatetime (datetime t) = Unit
IsDatetime _ = ⊥

abbrev pub IsBytes : Value → Type 0
IsBytes (bytes b) = Unit
IsBytes _ = ⊥

abbrev pub IsJson : Value → Type 0
IsJson (raw_json b) = Unit
IsJson (bytes b) = Unit
IsJson (text s) = Unit
IsJson _ = ⊥

abbrev pub IsRow : (Columns → Type 0) → Value → Type 0
IsRow P (row cs) = P cs
IsRow P _ = ⊥

-- A value that a column of the type can hold, where it is not repeated and not NULL; `P` is what a
-- RECORD's columns are.
abbrev pub FitsScalar : FieldType → (Columns → Type 0) → Value → Type 0
FitsScalar string_type P v = IsText v
FitsScalar geography_type P v = IsText v
FitsScalar integer_type P v = IsInteger v
FitsScalar float_type P v = IsFloat v
FitsScalar numeric_type P v = IsRational v
FitsScalar big_numeric_type P v = IsRational v
FitsScalar boolean_type P v = IsBoolean v
FitsScalar timestamp_type P v = IsTime v
FitsScalar date_type P v = IsDate v
FitsScalar time_type P v = IsCivilTime v
FitsScalar datetime_type P v = IsDatetime v
FitsScalar bytes_type P v = IsBytes v
FitsScalar json_type P v = IsJson v
FitsScalar record_type P v = IsRow P v
FitsScalar _ P v = ⊥

-- `C` is what a marshaler's result satisfies, for the type that the marshaler declares.
module _ (C : FieldType → Value → Type 0) where
  -- A marshaler's result for a column of its type, or what the column's own conversion makes.
  abbrev pub FitsOne : FieldType → (Columns → Type 0) → Value → Type 0
  FitsOne t P v = FitsScalar t P v ⊎ C t v

  abbrev pub FitsElements : FieldType → (Columns → Type 0) → Values → Type 0
  FitsElements t P no_values = Unit
  FitsElements t P (value v vs) = FitsOne t P v × FitsElements t P vs

  abbrev pub FitsGiven : FieldType → Bool → (Columns → Type 0) → Value → Type 0
  FitsGiven t false P v = FitsOne t P v
  FitsGiven t true P (elements vs) = FitsElements t P vs
  FitsGiven t true P _ = ⊥

  -- NULL other than from a marshaler only where the column is not REQUIRED.
  abbrev pub FitsField :
      FieldType → (repeated required : Bool) → (Columns → Type 0) → Value → Type 0
  FitsField t rep req P v = ((v ≡ null) × (req ≡ false)) ⊎ FitsGiven t rep P v

  -- The cells are the schema's columns, in order, each with a value that it can hold.
  abbrev pub Fits : Nested → Columns → Type 0
  Fits no_columns no_cells = Unit
  Fits no_columns (cell k v cs) = ⊥
  Fits (column n t rep req d s sub rest) no_cells = ⊥
  Fits (column n t rep req d s sub rest) (cell k v cs) =
      (k ≡ n) × FitsField t rep req (Fits sub) v × Fits rest cs

  -- C holds of each result of a marshaler, for the type that it declares for the value.
  abbrev pub IsClaimed : (GoValue → Option Claim) → Type 0
  IsClaimed f =
      (v : GoValue) (c : Claim) (out : Value)
      → f v ≡ some c
      → c.result ≡ ok out
      → C c.field_type out

  pub record AreClaimed (m : Marshalers) : Type 0 where
    pub registered : IsClaimed m.registered
    pub own : IsClaimed m.own

-- What a claimed value fits, it fits whatever a RECORD's columns are.
pub FitsScalar-any :
    (t : FieldType) (P : Columns → Type 0) (v : Value) → FitsScalar t (λ cs. ⊥) v → FitsScalar t P v
FitsScalar-any record_type P (row cs) h = absurd h
FitsScalar-any record_type P v h = absurd (none v h)
  where
    none : (v : Value) → IsRow (λ cs. ⊥) v → ⊥
    none (row cs) h = h
    none _ h = h
FitsScalar-any _ P v h = h
