-- ===== src/Marshal.antt =====
-- Marshalers of marshal.go: the list of conversions that are registered by the type that they are for.
-- The map is a function of the type.
pub mod Joined
use bqsink.Common.{
  ℕ, Bool, true, false, ◌&&◌, Option, none, some, List, [], ◌∷◌, ◌==◌, if◌then◌else◌,
}
use bqsink.Fault.{Error, message, Result}
use bqsink.Column.{FieldType}
use bqsink.Value.{GoValue, Value}
use bqsink.GoTypes.{
  Kind, bool_kind, string_kind, int_kind, uint8_kind, uint16_kind, uint32_kind, uint_kind,
  uint64_kind, float_kind, other_kind, GoType, basic, pointer_to, slice_of, array_of, map_of,
  interface, struct_type, deref,
}

pub record TypeMarshaler : Type 0 where
  pub field_type : FieldType
  pub marshal : GoValue → Result Value

-- *Marshalers without nil
pub record Registry : Type 0 where
  pub by_type : GoType → Option TypeMarshaler
  pub build_err : Option Error

abbrev kind_number : Kind → ℕ
kind_number bool_kind = 0
kind_number string_kind = 1
kind_number int_kind = 2
kind_number uint8_kind = 3
kind_number uint16_kind = 4
kind_number uint32_kind = 5
kind_number uint_kind = 6
kind_number uint64_kind = 7
kind_number float_kind = 8
kind_number other_kind = 9

-- a == b on reflect.Type
unfoldable pub same_type : GoType → GoType → Bool
same_type (basic k n) (basic j m) = kind_number k == kind_number j && n == m
same_type (pointer_to t) (pointer_to u) = same_type t u
same_type (slice_of n t) (slice_of m u) = n == m && same_type t u
same_type (array_of n t) (array_of m u) = n == m && same_type t u
same_type (map_of n k t) (map_of m j u) = n == m && (same_type k j && same_type t u)
same_type (interface n) (interface m) = n == m
same_type (struct_type n) (struct_type m) = n == m
same_type _ _ = false

abbrev pub no_marshalers : Registry
no_marshalers = record { by_type = λ t. none; build_err = none }

abbrev refused : Error → Registry
refused e = record { by_type = λ t. none; build_err = some e }

abbrev registered : GoType → FieldType → (GoValue → Result Value) → Registry
registered t field_type fn = record {
  by_type =
      λ u. if same_type t u then some (record { field_type = field_type; marshal = fn }) else none;
  build_err = none;
}

-- MarshalFunc for a type; a nil function is `none`.
unfoldable pub marshal_func : GoType → FieldType → Option (GoValue → Result Value) → Registry
marshal_func (pointer_to t) field_type fn =
    refused (message "bqsink: MarshalFunc was given a pointer type")
marshal_func t field_type none = refused (message "bqsink: MarshalFunc was given a nil function")
marshal_func t field_type (some fn) = registered t field_type fn

abbrev pub first_of {ℓ} : {A : Type ℓ} → Option A → Option A → Option A
first_of none o = o
first_of (some a) o = some a

-- Marshalers.merge of another that is not nil
unfoldable pub merge : Registry → Registry → Registry
merge s other = record {
  by_type = λ t. first_of (other.by_type t) (s.by_type t);
  build_err = first_of s.build_err other.build_err;
}

abbrev or_new : Option Registry → Registry
or_new none = no_marshalers
or_new (some s) = s

-- The loop of joinMarshalers.
unfoldable pub join_from : Option Registry → List (Option Registry) → Option Registry
join_from joined [] = joined
join_from joined (none ∷ ms) = join_from joined ms
join_from joined (some m ∷ ms) = join_from (some (merge (or_new joined) m)) ms

unfoldable pub join_marshalers : List (Option Registry) → Option Registry
join_marshalers ms = join_from none ms

-- Marshalers.lookup
unfoldable pub look_up : Option Registry → GoType → Option TypeMarshaler
look_up none t = none
look_up (some s) t = s.by_type (deref t)

-- Marshalers.err
unfoldable pub problem : Option Registry → Option Error
problem none = none
problem (some s) = s.build_err
