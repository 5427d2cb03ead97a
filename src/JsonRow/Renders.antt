-- ===== src/JsonRow/Renders.antt =====
-- When a row that a map was converted into can be encoded for the Storage Write API.
use bqsink.Common.{
  ℕ, String, ◌≡◌, inl, inr, refl, ap, ◌∙◌, Bool, true, false, ◌&&◌, some, List, [], ◌∷◌, All,
  contains, if◌then◌else◌,
}
use bqsink.Fault.{message, Result, ok, err}
use bqsink.Column.{
  FieldType, string_type, record_type, json_type, FieldSchema, Schema, Nested, no_columns, column,
  columns, names_of,
}
use bqsink.Diff.Lookup.{last_named, lookup-by_name_nil}
use bqsink.Diff.Nesting.{IsProper, IsProper-Distinct, last_named_self}
use bqsink.Value.{
  Value, null, text, bytes, raw_json, elements, row, Values, no_values, value, Columns, no_cells,
  cell, Entries, Float, nan, infinite, finite, float, foreign,
}
use bqsink.MapRow.{Marshalers, marshal_map}
use bqsink.MapRow.Fits.{
  FitsScalar, FitsScalar-any, FitsOne, FitsElements, FitsGiven, FitsField, Fits, AreClaimed,
}
use bqsink.MapRow.Typed.{marshal_map-Fits}
use bqsink.JsonRow.{
  storage_write, Json, json_null, json_text, json_array, json_object, JsonItems, no_items,
  json_item, plain, JsonFields, no_fields, json_field, Texts, render_json, json_column_value,
  json_scalar, json_element, json_elements, json_columns, items_of, json_value, json_list,
  encodes_float, encodes_value, encodes, encodes_items, encodes_fields, encode_row,
}

-- The names of a rendered object.
abbrev pub keys_of : JsonFields → List String
keys_of no_fields = []
keys_of (json_field n j fs) = n ∷ keys_of fs

mutual
  -- No FLOAT in it is a NaN or infinite.
  pub is_finite : Value → Bool
  is_finite (float nan) = false
  is_finite (float infinite) = false
  is_finite (elements vs) = are_finite vs
  is_finite (row cs) = finite_row cs
  is_finite _ = true

  pub are_finite : Values → Bool
  are_finite no_values = true
  are_finite (value v vs) = is_finite v && are_finite vs

  pub finite_row : Columns → Bool
  finite_row no_cells = true
  finite_row (cell n v cs) = is_finite v && finite_row cs

-- What a marshaler returns is of a type that maprow.go itself makes for the type declared, which is
-- no RECORD, and is not NULL.
abbrev pub IsBuiltIn : FieldType → Value → Type 0
IsBuiltIn t v = FitsScalar t (λ cs. ⊥) v

one-scalar :
    (t : FieldType) (P : Columns → Type 0) (v : Value) → FitsOne IsBuiltIn t P v → FitsScalar t P v
one-scalar t P v (inl h) = h
one-scalar t P v (inr h) = FitsScalar-any t P v h

module _ (x : Texts) where
  -- What is rendered to j, the encoder takes if the value is finite.
  abbrev Rendered : Value → Result Json → Type 0
  Rendered v r = (j : Json) × (r ≡ ok j) × (encodes x j ≡ is_finite v)

  render_json-ok :
      (b : List ℕ) → (j : Json) × (render_json x storage_write b ≡ ok j) × (encodes x j ≡ true)
  unfolding encodes
  render_json-ok [] = (json_null, refl, refl)
  render_json-ok (c ∷ b) = (json_text (x.text_of (c ∷ b)), refl, refl)

  float-encodes : (v : Float) → encodes x (plain (float v)) ≡ is_finite (float v)
  unfolding encodes encodes_value encodes_float is_finite
  float-encodes nan = refl
  float-encodes infinite = refl
  float-encodes (finite n rest) = refl

  -- What a RECORD's own columns are rendered to is known.
  abbrev Inner : (Columns → Type 0) → Nested → Type 0
  Inner P sub =
      (cs : Columns)
      → P cs
      → (fs : JsonFields) × (json_columns x cs (columns sub) storage_write ≡ ok fs)
        × (encodes_fields x fs ≡ finite_row cs)

  element-ok :
      (v : Value) (f : FieldSchema) (t : FieldType) (P : Columns → Type 0)
      → f.field_type ≡ t
      → Inner P f.schema
      → FitsScalar t P v
      → Rendered v (json_element x v f storage_write)
  unfolding json_element json_column_value json_scalar encodes encodes_value is_finite
  element-ok null f t P e ih h = (json_null, refl, refl)
  element-ok (row cs) f record_type P e ih h =
      let (fs, q, k) = ih cs h in (json_object fs, rw (e, q) refl, k)
  element-ok v f record_type P e ih h = absurd h
  element-ok (raw_json b) f json_type P e ih h = let (j, q, k) = render_json-ok b in (j, rw e q, k)
  element-ok (bytes b) f json_type P e ih h = let (j, q, k) = render_json-ok b in (j, rw e q, k)
  element-ok (text s) f json_type P e ih h =
      let (j, q, k) = render_json-ok (x.bytes_of s) in (j, rw e q, k)
  element-ok v f json_type P e ih h = absurd h
  element-ok (row cs) f _ P e ih h = absurd h
  element-ok (raw_json b) f _ P e ih h = absurd h
  element-ok (elements vs) f _ P e ih h = absurd h
  element-ok (foreign n) f _ P e ih h = absurd h
  element-ok (float v) f _ P e ih h = (plain (float v), rw e refl, float-encodes v)
  element-ok v f _ P e ih h = (json_scalar x v f storage_write, rw e refl, refl)

  elements-ok :
      (vs : Values) (f : FieldSchema) (P : Columns → Type 0)
      → Inner P f.schema
      → FitsElements IsBuiltIn f.field_type P vs
      → (js : JsonItems) × (json_elements x vs f storage_write ≡ ok js)
        × (encodes_items x js ≡ are_finite vs)
  unfolding json_elements encodes_items are_finite
  elements-ok no_values f P ih h = (no_items, refl, refl)
  elements-ok (value v vs) f P ih (h, hs) =
      let (j, p, a) = element-ok v f f.field_type P refl ih (one-scalar f.field_type P v h) in
      let (js, q, b) = elements-ok vs f P ih hs in (json_item j js, rw (p, q) refl, rw (a, b) refl)

  FitsScalar-null : (t : FieldType) (P : Columns → Type 0) → FitsScalar t P null → ⊥
  FitsScalar-null string_type P h = h
  FitsScalar-null _ P h = h

  -- A value that is given for a column without REPEATED is rendered as one element.
  json_value-one :
      (v : Value) (f : FieldSchema) (P : Columns → Type 0) (as_list : Result JsonItems)
      (as_one : Result Json)
      → f.repeated ≡ false
      → FitsScalar f.field_type P v
      → json_value x f v as_list as_one ≡ as_one
  json_value-one null f P as_list as_one e h = absurd (FitsScalar-null f.field_type P h)
  json_value-one (elements vs) f P as_list as_one e h = rw e refl
  json_value-one v f P as_list as_one e h = rw e refl

  json_value-list :
      (vs : Values) (f : FieldSchema) (as_list : Result JsonItems) (as_one : Result Json)
      → f.repeated ≡ true
      → json_value x f (elements vs) as_list as_one ≡ json_list x as_list
  json_value-list vs f as_list as_one e = rw e refl

  items_of-elements :
      (vs : Values) (f : FieldSchema)
      → items_of x (elements vs) f storage_write ≡ json_elements x vs f storage_write
  unfolding items_of
  items_of-elements vs f = refl

  -- What json_value makes of a cell.
  abbrev rendered : Value → FieldSchema → Result Json
  rendered v f = json_value x f v (items_of x v f storage_write) (json_element x v f storage_write)

  given-ok :
      (v : Value) (f : FieldSchema) (rep : Bool) (P : Columns → Type 0)
      → f.repeated ≡ rep
      → Inner P f.schema
      → FitsGiven IsBuiltIn f.field_type rep P v
      → Rendered v (rendered v f)
  unfolding encodes is_finite
  given-ok (elements vs) f true P e ih h =
      let (js, q, k) = elements-ok vs f P ih h in
      let one : Result Json = json_element x (elements vs) f storage_write in
      (
        json_array js,
        json_value-list vs f (items_of x (elements vs) f storage_write) one e
            ∙ ap (json_list x) (items_of-elements vs f ∙ q),
        k,
      )
  given-ok v f true P e ih h = absurd h
  given-ok v f false P e ih h =
      let fits = one-scalar f.field_type P v h in
      let (j, q, k) = element-ok v f f.field_type P refl ih fits in
      let list : Result JsonItems = items_of x v f storage_write in
      let one : Result Json = json_element x v f storage_write in
      (j, json_value-one v f P list one e fits ∙ q, k)

  -- A cell that fits its column is rendered.
  cell-ok :
      (v : Value) (f : FieldSchema) (P : Columns → Type 0)
      → Inner P f.schema
      → FitsField IsBuiltIn f.field_type f.repeated f.required P v
      → Rendered v (rendered v f)
  unfolding encodes is_finite
  cell-ok v f P ih (inl (nil, free)) = (json_null, rw (nil, free) refl, rw nil refl)
  cell-ok v f P ih (inr h) = given-ok v f f.repeated P refl ih h

  columns-ok :
      (sub : Nested) (schema : Schema) (cs : Columns)
      → IsProper sub
      → All (λ f. last_named f.name schema ≡ some f) (columns sub)
      → Fits IsBuiltIn sub cs
      → (fs : JsonFields) × (json_columns x cs schema storage_write ≡ ok fs)
        × (encodes_fields x fs ≡ finite_row cs)
        × (keys_of fs ≡ names_of (columns sub))
  unfolding json_columns encodes_fields finite_row
  columns-ok no_columns schema no_cells u found h = (no_fields, refl, refl, refl)
  columns-ok no_columns schema (cell k v cs) u found h = absurd h
  columns-ok (column n t rep req d s sub rest) schema no_cells u found h = absurd h
  columns-ok (column n t rep req d s sub rest) schema (cell k v cs) u found h =
      let f : FieldSchema = record {
        name = n;
        field_type = t;
        repeated = rep;
        required = req;
        description = d;
        scale = s;
        schema = sub;
      } in
      let inner : Inner (Fits IsBuiltIn sub) sub = λ is fits.
        let (fs, q, b, names) =
          columns-ok sub (columns sub) is u.1
            (last_named_self (columns sub) (IsProper-Distinct sub u.1)) fits in
        (fs, q, b) in
      let (j, p, a) = cell-ok v f (Fits IsBuiltIn sub) inner h.1 in
      let (fs, q, b, names) = columns-ok rest schema cs u.2 found.1 h.2 in
      (
        json_field n j fs,
        rw (h.0, lookup-by_name_nil n schema, found.0, p, q) refl,
        rw (a, b) refl,
        ap (λ ks. n ∷ ks) names,
      )

  -- For a schema without repeated names, and marshalers that never return NULL and return values that
  -- maprow.go itself makes for the type declared, which is no RECORD: a row that a map was converted
  -- into is rendered for the Storage Write API against that schema, to an object with exactly the
  -- schema's names. Encoding the row gives that object's bytes if no FLOAT in the row, at any depth,
  -- is a NaN or infinite, and fails otherwise.
  pub marshal_map-encode_row :
      (m : Marshalers) (schema : Nested) (r : Entries) (out : Columns)
      → AreClaimed IsBuiltIn m
      → IsProper schema
      → marshal_map m schema r ≡ ok out
      → (fs : JsonFields) × (json_columns x out (columns schema) storage_write ≡ ok fs)
        × ((k : String) → contains k (keys_of fs) ≡ contains k (names_of (columns schema)))
        × (encode_row x out (columns schema) storage_write ≡ (
            if finite_row out
            then ok (x.encoded fs)
            else err (message "bqsink: encode row as JSON")))
  unfolding encode_row
  marshal_map-encode_row m schema r out honest u h =
      let (fs, q, b, names) =
        columns-ok schema (columns schema) out u
          (last_named_self (columns schema) (IsProper-Distinct schema u))
          (marshal_map-Fits IsBuiltIn m honest schema r out u h).0 in
      (fs, q, λ k. ap (contains k) names, rw (q, b) refl)
