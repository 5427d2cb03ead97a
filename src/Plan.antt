-- ===== src/Plan.antt =====
-- buildRowPlan of plan.go, with tableMetaOf of schema.go: the plan that a struct type comes to. It is
-- on fuel for the depth of RECORD columns; `none` is out of fuel. What a type's own FieldMarshaler
-- declares is a parameter, and so is the reading of a field's tag.
pub mod Types
pub mod Shapes
pub mod Depth
pub mod Endless
use bqsink.Common.{
  ℕ, zero, suc, String, Bool, true, false, not, ◌||◌, ◌&&◌, Option, none, some, List, [], ◌∷◌, ◌==◌,
  str_eq, is_empty, if◌then◌else◌,
}
use bqsink.Common.Assoc.{Assoc}
use bqsink.Fault.{Error, message, wrap, wrapping, Result, ok, err}
use bqsink.Column.{
  FieldType, type_eq, string_type, bytes_type, integer_type, float_type, boolean_type,
  timestamp_type, record_type, date_type, time_type, datetime_type, numeric_type, json_type, Nested,
  no_columns, column,
}
use bqsink.Tags.{FieldTag, parse_labels}
use bqsink.Declare.{FieldPlan, RowPlan}
use bqsink.Layout.{Tagged, LayoutTag, Layout, resolve_layout}
use bqsink.GoTypes.{
  Kind, bool_kind, string_kind, int_kind, uint8_kind, uint16_kind, uint32_kind, uint_kind,
  uint64_kind, float_kind, other_kind, GoType, basic, pointer_to, slice_of, array_of, map_of,
  interface, struct_type, StructField, Structs, raw_message_name, time_name, date_name,
  civil_time_name, datetime_name, rat_name, table_meta_name, deref, struct_of, is_byte,
  repeated_element,
}
use bqsink.Marshal.{TypeMarshaler, Registry, look_up, problem}
use bqsink.Fields.{Candidate, collect_fields}

-- fieldPlan.marshal: which conversion applies to the column's values, none where it is nil.
pub data Conversion : Type 0 where
  registered own raw_message_text as_json : Conversion
  civil_of : String → Conversion

-- fieldPlan without its nested plan
pub record PlannedField : Type 0 where
  pub name : String
  pub index : List ℕ
  pub required : Bool
  pub repeated : Bool
  pub null_if_zero : Bool
  pub description : String
  pub field_type : FieldType
  pub conversion : Option Conversion

-- A plan's fields, each with the fields of its nested plan.
pub data PlanFields : Type 0 where
  no_fields : PlanFields
  field : PlannedField → PlanFields → PlanFields → PlanFields

-- rowPlan.schema
unfoldable pub nested_schema : PlanFields → Nested
nested_schema no_fields = no_columns
nested_schema (field c nested rest) =
    column c.name c.field_type c.repeated c.required c.description 0 (nested_schema nested)
      (nested_schema rest)

-- The fields as far as the table's schema and its layout read them.
unfoldable pub field_plans : PlanFields → List FieldPlan
field_plans no_fields = []
field_plans (field c nested rest) =
    record {
      name = c.name;
      field_type = c.field_type;
      required = c.required;
      repeated = c.repeated;
      description = c.description;
      nested = nested_schema nested;
    }
    ∷ field_plans rest

-- What resolveType settles.
pub record Resolved : Type 0 where
  pub field_type : FieldType
  pub conversion : Option Conversion
  pub nested : PlanFields

abbrev plain : FieldType → Resolved
plain t = record { field_type = t; conversion = none; nested = no_fields }

abbrev converted : FieldType → Conversion → Resolved
converted t c = record { field_type = t; conversion = some c; nested = no_fields }

-- wellKnownTypes
unfoldable pub well_known : GoType → Option FieldType
well_known (struct_type n) =
    if n == time_name
    then some timestamp_type
    else if n == date_name
    then some date_type
    else if n == civil_time_name
    then some time_type
    else if n == datetime_name
    then some datetime_type
    else if n == rat_name
    then some numeric_type
    else none
well_known _ = none

abbrev is_time : GoType → Bool
is_time (struct_type n) = n == time_name
is_time _ = false

-- timeColumnTypes
abbrev time_column : String → Option FieldType
time_column opt =
    if str_eq opt "date"
    then some date_type
    else if str_eq opt "datetime"
    then some datetime_type
    else if str_eq opt "time"
    then some time_type
    else none

abbrev is_given {ℓ} : {A : Type ℓ} → Option A → Bool
is_given none = false
is_given (some a) = true

unfoldable pub resolve_time_type : Option Registry → GoType → FieldTag → Result Resolved
resolve_time_type marshalers t tag = elim (time_column tag.time_type) [
  | none ↦ err (message "unknown tag option")
  | some column_type ↦
      if not (is_time (deref t))
      then err (message "the time option needs a time.Time")
      else if is_given (look_up marshalers t)
      then err (message "the time option and the marshaler registered for time.Time disagree")
      else ok (converted column_type (civil_of tag.time_type))
]

abbrev unsupported : Result Resolved
unsupported = err (message "unsupported type")

abbrev is_string_kind : GoType → Bool
is_string_kind (basic string_kind n) = true
is_string_kind _ = false

-- A sequence becomes JSON only as a json.RawMessage, a slice.
unfoldable pub resolve_json : GoType → Result Resolved
resolve_json (struct_type n) = ok (converted json_type as_json)
resolve_json (interface n) = ok (converted json_type as_json)
resolve_json (map_of n key t) =
    if is_string_kind key
    then ok (converted json_type as_json)
    else err (message "a map needs string keys to become a JSON column")
resolve_json (slice_of n t) =
    if n == raw_message_name then ok (converted json_type raw_message_text) else unsupported
resolve_json _ = unsupported

-- The switch on the kind at the end of resolveType.
unfoldable pub resolve_kind : GoType → Result Resolved
resolve_kind (basic string_kind n) = ok (plain string_type)
resolve_kind (basic bool_kind n) = ok (plain boolean_type)
resolve_kind (basic int_kind n) = ok (plain integer_type)
resolve_kind (basic uint8_kind n) = ok (plain integer_type)
resolve_kind (basic uint16_kind n) = ok (plain integer_type)
resolve_kind (basic uint32_kind n) = ok (plain integer_type)
resolve_kind (basic uint_kind n) = ok (plain numeric_type)
resolve_kind (basic uint64_kind n) = ok (plain numeric_type)
resolve_kind (basic float_kind n) = ok (plain float_type)
resolve_kind (slice_of n t) =
    if is_byte t && not (n == raw_message_name)
    then ok (plain bytes_type)
    else resolve_json (slice_of n t)
resolve_kind (array_of n t) =
    if is_byte t then ok (plain bytes_type) else resolve_json (array_of n t)
resolve_kind t = resolve_json t

-- What a marshaler declares; a RECORD is refused.
abbrev declared : FieldType → Conversion → Result Resolved
declared t c =
    if type_eq t record_type
    then err (message "a marshaler declares RECORD, which needs a nested schema")
    else ok (converted t c)

-- The statements after a call that may run out of fuel.
abbrev and_then {ℓ κ} :
    {A : Type ℓ} {B : Type κ} → Option (Result A) → (A → Option (Result B)) → Option (Result B)
and_then none rest = none
and_then (some (err e)) rest = some (err e)
and_then (some (ok a)) rest = rest a

-- `if err != nil { return fmt.Errorf(...) }` on a call that may run out of fuel
abbrev naming {ℓ} : {A : Type ℓ} → String → Option (Result A) → Option (Result A)
naming text none = none
naming text (some r) = some (wrapping text r)

abbrev as_record : PlanFields → Option (Result Resolved)
as_record nested =
    some (ok (record { field_type = record_type; conversion = none; nested = nested }))

abbrev layout_tag : FieldTag → LayoutTag
layout_tag tag = record {
  partition = tag.partition;
  require_filter = tag.require_filter;
  cluster = tag.cluster;
}

abbrev tagged_fields : List FieldPlan → List Candidate → List Tagged
tagged_fields [] cs = []
tagged_fields (f ∷ fs) [] = []
tagged_fields (f ∷ fs) (c ∷ cs) = record { field = f; tag = layout_tag c.tag } ∷ tagged_fields fs cs

-- tableMetaTag
pub record TableMetaTag : Type 0 where
  pub description : String
  pub labels : Assoc String

abbrev is_table_meta : StructField → Bool
is_table_meta sf = elim sf.go_type [
  | struct_type n ↦ n == table_meta_name && sf.anonymous
  | _ ↦ false
]

abbrev or_blank : Option String → String
or_blank none = ""
or_blank (some s) = s

abbrev labels_of : Option String → Result (Assoc String)
labels_of none = ok []
labels_of (some v) = parse_labels v

-- What an embedded TableMeta's own tag says.
unfoldable pub read_table_meta : (String → Option String) → Result TableMetaTag
read_table_meta keys =
    if is_given (keys "bqsink") || is_given (keys "partition") || is_given (keys "cluster")
    then err (message "the embedded TableMeta carries a tag which describes a column")
    else elim (labels_of (keys "labels")) [
      | err e ↦ err e
      | ok labels ↦ ok (record { description = or_blank (keys "description"); labels = labels })
    ]

-- tableMetaOf, over the struct's fields
unfoldable pub table_meta_of : List StructField → Result TableMetaTag
table_meta_of [] = ok (record { description = ""; labels = [] })
table_meta_of (sf ∷ sfs) = if is_table_meta sf then read_table_meta sf.keys else table_meta_of sfs

module _ (structs : Structs) (parse : (String → Option String) → Result FieldTag)
    (own_type : GoType → Option FieldType) (levels : ℕ) (marshalers : Option Registry) where
  -- The end of resolveType, where no marshaler applies.
  unfoldable pub resolve_unclaimed :
      (ℕ → Option (Result PlanFields)) → GoType → FieldTag → Option (Result Resolved)
  resolve_unclaimed nested dt tag = elim (well_known dt) [
    | some t ↦ some (ok (plain t))
    | none ↦ elim tag.is_record [
      | false ↦ some (resolve_kind dt)
      | true ↦ elim (struct_of dt) [
        | none ↦ some (err (message "the record option needs a struct"))
        | some n ↦ and_then (nested n) as_record
      ]
    ]
  ]

  -- resolveType, given what buildRowPlanFor makes of a struct type
  unfoldable pub resolve_type :
      (ℕ → Option (Result PlanFields)) → GoType → FieldTag → Option (Result Resolved)
  resolve_type nested t tag = elim (str_eq tag.time_type "") [
    | false ↦ some (resolve_time_type marshalers t tag)
    | true ↦ elim (look_up marshalers t) [
      | some m ↦ some (declared m.field_type registered)
      | none ↦ elim (own_type (deref t)) [
        | some ft ↦ some (declared ft own)
        | none ↦ resolve_unclaimed nested (deref t) tag
      ]
    ]
  ]

  abbrev column_of : Candidate → Bool → Resolved → PlannedField
  column_of c repeated r = record {
    name = c.name;
    index = c.index;
    required = not repeated && c.tag.required;
    repeated = repeated;
    null_if_zero = c.tag.null_if_zero;
    description = c.tag.description;
    field_type = r.field_type;
    conversion = r.conversion;
  }

  abbrev element_or : GoType → Option GoType → GoType
  element_or t none = t
  element_or t (some u) = u

  -- buildFieldPlan, put before the fields that follow
  unfoldable pub build_field :
      (ℕ → Option (Result PlanFields)) → Candidate → Option (Result (PlanFields → PlanFields))
  build_field nested c =
      let element = repeated_element (deref c.field.go_type) in
      and_then
        (naming "bqsink: field"
          (resolve_type nested (element_or (deref c.field.go_type) element) c.tag))
        (λ r. some (ok (λ rest. field (column_of c (is_given element) r) r.nested rest)))

  unfoldable pub build_fields :
      (ℕ → Option (Result PlanFields)) → List Candidate → Option (Result PlanFields)
  build_fields nested [] = some (ok no_fields)
  build_fields nested (c ∷ cs) =
      and_then (build_field nested c)
        (λ put. and_then (build_fields nested cs) (λ rest. some (ok (put rest))))

  -- The checks of buildRowPlanFor once the fields are built, and the plan.
  unfoldable pub finish_plan : List Candidate → TableMetaTag → PlanFields → Result RowPlan
  finish_plan cs meta columns =
      if is_empty (field_plans columns)
      then err (message "bqsink: cannot map a type to a row: no usable exported fields")
      else elim (resolve_layout (tagged_fields (field_plans columns) cs)) [
        | err e ↦ err (wrap "bqsink" e)
        | ok layout ↦ ok (record {
          fields = field_plans columns;
          partitioning = layout.partitioning;
          clustering = layout.clustering;
          require_filter = layout.require_filter;
          description = meta.description;
          labels = meta.labels;
        })
      ]

  -- buildRowPlanFor of a struct type: its fields, and the plan made of them.
  unfoldable pub build_struct : ℕ → ℕ → Option (Result (PlanFields × RowPlan))
  build_struct zero t = none
  build_struct (suc fuel) t =
      let nested : ℕ → Option (Result PlanFields) =
        λ n. and_then (build_struct fuel n) (λ built. some (ok built.0)) in
      and_then (collect_fields structs parse levels t) (λ cs.
        and_then (some (wrapping "bqsink" (table_meta_of (structs t)))) (λ meta.
          and_then (build_fields nested cs) (λ columns. elim (finish_plan cs meta columns) [
            | err e ↦ some (err e)
            | ok plan ↦ some (ok (columns, plan))
          ])))

  -- buildRowPlan
  unfoldable pub build_row_plan : ℕ → GoType → Option (Result (PlanFields × RowPlan))
  build_row_plan fuel t = elim (problem marshalers) [
    | some e ↦ some (err e)
    | none ↦ elim (struct_of (deref t)) [
      | none ↦ some (err (message "bqsink: cannot map a type to a row: not a struct"))
      | some n ↦ build_struct fuel n
    ]
  ]
