-- ===== src/Plan/Types.antt =====
-- What the columns of a plan are: RECORD exactly where there is a nested plan.
use bqsink.Common.{
  String, ◌≡◌, ◌≢◌, refl, sym, ◌∙◌, ◌⊎◌, inl, inr, Bool, true, false, not, ◌&&◌, Option, none, some,
  str_eq, ◌==◌, Bool-cases, if◌then◌else◌,
}
use bqsink.Fault.{message, Result, ok, err}
use bqsink.Column.{FieldType, type_eq, type_eq_iff, record_type, json_type}
use bqsink.Tags.{FieldTag}
use bqsink.GoTypes.{GoType, deref}
use bqsink.Marshal.{Registry, look_up}
use bqsink.Plan.{
  is_time, time_column, Conversion, as_json, raw_message_text, civil_of, PlannedField, PlanFields,
  no_fields, field, Resolved, plain, converted, well_known, resolve_time_type, resolve_json,
  resolve_kind, declared, is_given,
}
use bqsink.GoTypes.{
  bool_kind, string_kind, int_kind, uint8_kind, uint16_kind, uint32_kind, uint_kind, uint64_kind,
  float_kind, basic, slice_of, array_of, map_of, interface, struct_type, raw_message_name, is_byte,
  time_name, date_name, civil_time_name, datetime_name, rat_name,
}

-- A REPEATED column is not REQUIRED; a RECORD has columns of its own and no conversion; any other has
-- no columns of its own, and a conversion if it is JSON.
abbrev pub IsShaped : PlannedField → PlanFields → Type 0
IsShaped c nested =
    (c.repeated ≡ true → c.required ≡ false)
    × (((c.field_type ≡ record_type) × (c.conversion ≡ none) × (nested ≢ no_fields))
        ⊎ ((c.field_type ≢ record_type)
            × (nested ≡ no_fields)
            × (c.field_type ≡ json_type → c.conversion ≢ none)))

-- So at every depth.
abbrev pub AreShaped : PlanFields → Type 0
AreShaped no_fields = Unit
AreShaped (field c nested rest) = IsShaped c nested × AreShaped nested × AreShaped rest

unfoldable pub IsFit : Resolved → Type 0
IsFit r =
    ((r.field_type ≡ record_type)
      × (r.conversion ≡ none)
      × (r.nested ≢ no_fields)
      × AreShaped r.nested)
    ⊎ ((r.field_type ≢ record_type)
        × (r.nested ≡ no_fields)
        × (r.field_type ≡ json_type → r.conversion ≢ none))

not_type : (t u : FieldType) → type_eq t u ≡ false → t ≢ u
not_type t u h e = let clash : true ≡ false = sym ((type_eq_iff t u).1 e) ∙ h in cc

pub plain-IsFit :
    (t : FieldType) → type_eq t record_type ≡ false → type_eq t json_type ≡ false → IsFit (plain t)
unfolding IsFit
plain-IsFit t h k = inr (not_type t record_type h, refl, λ e. absurd (not_type t json_type k e))

converted-IsFit :
    (t : FieldType) (c : Conversion) → type_eq t record_type ≡ false → IsFit (converted t c)
unfolding IsFit
converted-IsFit t c h = inr (not_type t record_type h, refl, λ e k. cc)

-- The result is fit, if there is one.
unfoldable pub IfFit : Result Resolved → Type 0
IfFit (ok r) = IsFit r
IfFit (err e) = Unit

resolve_json-IfFit : (t : GoType) → IfFit (resolve_json t)
unfolding resolve_json IfFit type_eq
resolve_json-IfFit (struct_type n) = converted-IsFit json_type as_json refl
resolve_json-IfFit (interface n) = converted-IsFit json_type as_json refl
resolve_json-IfFit (map_of n (basic string_kind m) t) = converted-IsFit json_type as_json refl
resolve_json-IfFit (slice_of n t) = elim (Bool-cases (n == raw_message_name)) [
  | inl e ↦ rw e (converted-IsFit json_type raw_message_text refl)
  | inr e ↦ rw e tt
]
resolve_json-IfFit _ = tt

pub resolve_kind-IfFit : (t : GoType) → IfFit (resolve_kind t)
unfolding resolve_kind IfFit type_eq
resolve_kind-IfFit (basic string_kind n) = plain-IsFit _ refl refl
resolve_kind-IfFit (basic bool_kind n) = plain-IsFit _ refl refl
resolve_kind-IfFit (basic int_kind n) = plain-IsFit _ refl refl
resolve_kind-IfFit (basic uint8_kind n) = plain-IsFit _ refl refl
resolve_kind-IfFit (basic uint16_kind n) = plain-IsFit _ refl refl
resolve_kind-IfFit (basic uint32_kind n) = plain-IsFit _ refl refl
resolve_kind-IfFit (basic uint_kind n) = plain-IsFit _ refl refl
resolve_kind-IfFit (basic uint64_kind n) = plain-IsFit _ refl refl
resolve_kind-IfFit (basic float_kind n) = plain-IsFit _ refl refl
resolve_kind-IfFit (slice_of n t) = elim (Bool-cases (is_byte t && not (n == raw_message_name))) [
  | inl e ↦ rw e (plain-IsFit _ refl refl)
  | inr e ↦ rw e (resolve_json-IfFit (slice_of n t))
]
resolve_kind-IfFit (array_of n t) = elim (Bool-cases (is_byte t)) [
  | inl e ↦ rw e (plain-IsFit _ refl refl)
  | inr e ↦ rw e (resolve_json-IfFit (array_of n t))
]
resolve_kind-IfFit t = resolve_json-IfFit t

pub declared-IfFit : (t : FieldType) (c : Conversion) → IfFit (declared t c)
unfolding IfFit
declared-IfFit t c = elim (Bool-cases (type_eq t record_type)) [
  | inl e ↦ rw e tt
  | inr e ↦ rw e (converted-IsFit t c e)
]

-- None but a scalar, if there is one.
unfoldable pub IsScalar : Option FieldType → Type 0
IsScalar none = Unit
IsScalar (some t) = (type_eq t record_type ≡ false) × (type_eq t json_type ≡ false)

IsScalar-if :
    (b : Bool) (x y : Option FieldType) → IsScalar x → IsScalar y → IsScalar (if b then x else y)
IsScalar-if true x y h k = h
IsScalar-if false x y h k = k

pub well_known-IsScalar : (t : GoType) → IsScalar (well_known t)
unfolding well_known IsScalar type_eq
well_known-IsScalar (struct_type n) =
    IsScalar-if (n == time_name) _ _ (refl, refl)
      (IsScalar-if (n == date_name) _ _ (refl, refl)
        (IsScalar-if (n == civil_time_name) _ _ (refl, refl)
          (IsScalar-if (n == datetime_name) _ _ (refl, refl)
            (IsScalar-if (n == rat_name) _ _ (refl, refl) tt))))
well_known-IsScalar _ = tt

time_column-IsScalar : (opt : String) → IsScalar (time_column opt)
unfolding IsScalar type_eq
time_column-IsScalar opt =
    IsScalar-if (str_eq opt "date") _ _ (refl, refl)
      (IsScalar-if (str_eq opt "datetime") _ _ (refl, refl)
        (IsScalar-if (str_eq opt "time") _ _ (refl, refl) tt))

pub resolve_time_type-IfFit :
    (marshalers : Option Registry) (t : GoType) (tag : FieldTag)
    → IfFit (resolve_time_type marshalers t tag)
unfolding resolve_time_type IfFit IsScalar
resolve_time_type-IfFit marshalers t tag =
    go (time_column tag.time_type) (time_column-IsScalar tag.time_type)
  where
    either : (b : Bool) (x y : Result Resolved) → IfFit x → IfFit y → IfFit (if b then x else y)
    either true x y h k = h
    either false x y h k = k

    go :
        (o : Option FieldType)
        → IsScalar o
        → IfFit (elim o as (λ x. Result Resolved) [
          | none ↦ err (message "unknown tag option")
          | some column_type ↦
              if not (is_time (deref t))
              then err (message "the time option needs a time.Time")
              else if is_given (look_up marshalers t)
              then err
                  (message "the time option and the marshaler registered for time.Time disagree")
              else ok (converted column_type (civil_of tag.time_type))
        ])
    go none h = tt
    go (some c) h = either (not (is_time (deref t))) _ _ tt (
        either (is_given (look_up marshalers t)) _ _ tt
          (converted-IsFit c (civil_of tag.time_type) h.0))
