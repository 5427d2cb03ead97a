-- ===== src/GoTypes.antt =====
-- Go's types as far as plan.go and fields.go look at them by reflection. A type is known by a number
-- where it has a name, and by 0 where it has none; what a struct type holds is a function of its
-- number. `deref`, isRepeated and isByteSequence of schema.go.
use bqsink.Common.{ℕ, String, Bool, true, false, Option, none, some, List, if◌then◌else◌}

-- reflect.Kind of a type without elements. `int_kind` is each signed integer, `float_kind` each float,
-- `other_kind` one that no column holds.
pub data Kind : Type 0 where
  bool_kind string_kind int_kind uint8_kind uint16_kind uint32_kind uint_kind uint64_kind : Kind
  float_kind other_kind : Kind

pub data GoType : Type 0 where
  basic : Kind → ℕ → GoType
  pointer_to : GoType → GoType
  slice_of array_of : ℕ → GoType → GoType
  -- the key's type, then the element's
  map_of : ℕ → GoType → GoType → GoType
  interface struct_type : ℕ → GoType

-- reflect.StructField; its tag is the function that looks a key up.
pub record StructField : Type 0 where
  pub name : String
  pub exported : Bool
  pub anonymous : Bool
  pub go_type : GoType
  pub keys : String → Option String

-- The fields of a struct type, in the order of their declaration.
abbrev pub Structs : Type 0
Structs = ℕ → List StructField

-- The numbers of json.RawMessage, a slice, and of the struct types that the source names.
abbrev pub raw_message_name : ℕ
raw_message_name = 1

abbrev pub time_name : ℕ
time_name = 1

abbrev pub date_name : ℕ
date_name = 2

abbrev pub civil_time_name : ℕ
civil_time_name = 3

abbrev pub datetime_name : ℕ
datetime_name = 4

abbrev pub rat_name : ℕ
rat_name = 5

abbrev pub table_meta_name : ℕ
table_meta_name = 6

-- deref
unfoldable pub deref : GoType → GoType
deref (pointer_to t) = deref t
deref t = t

-- The struct type that a type is.
abbrev pub struct_of : GoType → Option ℕ
struct_of (struct_type n) = some n
struct_of _ = none

-- isByteSequence of a sequence with these elements
abbrev pub is_byte : GoType → Bool
is_byte (basic uint8_kind n) = true
is_byte _ = false

-- isRepeated, with the element's type
abbrev pub repeated_element : GoType → Option GoType
repeated_element (slice_of n t) = if is_byte t then none else some t
repeated_element (array_of n t) = if is_byte t then none else some t
repeated_element _ = none
