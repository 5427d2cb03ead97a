-- ===== src/MapRow/Scalars.antt =====
-- What one value that is not NULL becomes.
use Prim.Native.Nat.{◌%◌}
use bqsink.Common.{
  ℕ, ◌-◌, ◌≡◌, inl, inr, refl, subst, Bool, false, Option, none, some, ltb, arith, Bool-cases,
}
use bqsink.Fault.{wrap, Result, ok, err, ok_inj}
use bqsink.Column.{
  FieldType, type_eq, type_eq_iff, string_type, bytes_type, integer_type, float_type, boolean_type,
  timestamp_type, record_type, date_type, time_type, datetime_type, numeric_type, big_numeric_type,
  geography_type, json_type,
}
use bqsink.Value.{
  ℤ, pos, negsuc, int64_boundary, uint64_modulus, FitsInt64, signed-FitsInt64, Float, nan, infinite,
  finite, GoValue, string_value, int_value, uint_value, float_value, bool_value, rat_value,
  time_value, date_value, civil_time_value, datetime_value, bytes_value, raw_message, named_bytes,
  pointer, any_map, Items, no_items, item, Entries, Value, row, Values, value, Columns, is_nil_any,
}
use bqsink.MapRow.{
  int64_from_uint64, overflows, int64_from_float, marshal_integer, to_text, to_float, to_rational,
  to_boolean, to_time, to_date, to_civil_time, to_datetime, to_bytes, to_json, to_record,
  marshal_accepted, Claim, Marshalers, claimed, marshal_scalar, marshal_items,
}
use bqsink.MapRow.Fits.{
  IsText, IsInteger, IsFloat, IsRational, IsBoolean, IsTime, IsDate, IsCivilTime, IsDatetime,
  IsBytes, IsJson, IsRow, FitsScalar, FitsOne, FitsElements, AreClaimed,
}

int64_from_uint64-IsInteger :
    (bits : ℕ) (out : Value) → int64_from_uint64 bits ≡ ok out → IsInteger out
unfolding int64_from_uint64
int64_from_uint64-IsInteger bits out h =
    elim (Bool-cases (ltb (int64_boundary - 1) (bits % uint64_modulus))) [
      | inl over ↦ let h' = rw over at h in cc
      | inr fits ↦ subst IsInteger (ok_inj (rw fits at h)) (ground arith)
    ]

pub int64_from_float-IsInteger :
    (v : Float) (out : Value) → int64_from_float v ≡ ok out → IsInteger out
unfolding int64_from_float
int64_from_float-IsInteger nan out h = cc
int64_from_float-IsInteger infinite out h = cc
int64_from_float-IsInteger (finite n rest) out h = elim (Bool-cases (overflows n rest)) [
  | inl over ↦ let h' = rw over at h in cc
  | inr fits ↦ elim (Bool-cases rest) [
    | inl part ↦ let h' = rw (fits, part) at h in cc
    | inr whole ↦ subst IsInteger (ok_inj (rw (fits, whole) at h)) (in_range n rest fits)
  ]
]
  where
    in_range : (n : ℤ) (rest : Bool) → overflows n rest ≡ false → FitsInt64 n
    in_range (pos n) rest h = ground arith
    in_range (negsuc n) rest h = ground arith

pub marshal_integer-IsInteger :
    (v : GoValue) (out : Value) → marshal_integer v ≡ ok out → IsInteger out
unfolding marshal_integer
marshal_integer-IsInteger (int_value bits) out h =
    subst IsInteger (ok_inj h) (signed-FitsInt64 bits)
marshal_integer-IsInteger (uint_value bits) out h = int64_from_uint64-IsInteger bits out h
marshal_integer-IsInteger (float_value v) out h = int64_from_float-IsInteger v out h
marshal_integer-IsInteger _ out h = cc

to_text-IsText : (v : GoValue) (out : Value) → to_text v ≡ ok out → IsText out
to_text-IsText (string_value s) out h = subst IsText (ok_inj h) tt
to_text-IsText _ out h = cc

to_float-IsFloat : (v : GoValue) (out : Value) → to_float v ≡ ok out → IsFloat out
to_float-IsFloat (float_value s) out h = subst IsFloat (ok_inj h) tt
to_float-IsFloat _ out h = cc

to_rational-IsRational : (v : GoValue) (out : Value) → to_rational v ≡ ok out → IsRational out
to_rational-IsRational (pointer (rat_value r)) out h = subst IsRational (ok_inj h) tt
to_rational-IsRational _ out h = cc

to_boolean-IsBoolean : (v : GoValue) (out : Value) → to_boolean v ≡ ok out → IsBoolean out
to_boolean-IsBoolean (bool_value s) out h = subst IsBoolean (ok_inj h) tt
to_boolean-IsBoolean _ out h = cc

to_time-IsTime : (v : GoValue) (out : Value) → to_time v ≡ ok out → IsTime out
to_time-IsTime (time_value s) out h = subst IsTime (ok_inj h) tt
to_time-IsTime _ out h = cc

to_date-IsDate : (v : GoValue) (out : Value) → to_date v ≡ ok out → IsDate out
to_date-IsDate (date_value s) out h = subst IsDate (ok_inj h) tt
to_date-IsDate _ out h = cc

to_civil_time-IsCivilTime : (v : GoValue) (out : Value) → to_civil_time v ≡ ok out → IsCivilTime out
to_civil_time-IsCivilTime (civil_time_value s) out h = subst IsCivilTime (ok_inj h) tt
to_civil_time-IsCivilTime _ out h = cc

to_datetime-IsDatetime : (v : GoValue) (out : Value) → to_datetime v ≡ ok out → IsDatetime out
to_datetime-IsDatetime (datetime_value s) out h = subst IsDatetime (ok_inj h) tt
to_datetime-IsDatetime _ out h = cc

to_bytes-IsBytes : (v : GoValue) (out : Value) → to_bytes v ≡ ok out → IsBytes out
to_bytes-IsBytes (bytes_value b) out h = subst IsBytes (ok_inj h) tt
to_bytes-IsBytes (raw_message b) out h = subst IsBytes (ok_inj h) tt
to_bytes-IsBytes (named_bytes b) out h = subst IsBytes (ok_inj h) tt
to_bytes-IsBytes _ out h = cc

to_json-IsJson : (v : GoValue) (out : Value) → to_json v ≡ ok out → IsJson out
to_json-IsJson (raw_message b) out h = subst IsJson (ok_inj h) tt
to_json-IsJson (bytes_value b) out h = subst IsJson (ok_inj h) tt
to_json-IsJson (string_value b) out h = subst IsJson (ok_inj h) tt
to_json-IsJson _ out h = cc

-- If the type is RECORD's, what the nested plan gives satisfies P.
abbrev pub Gives : FieldType → (Columns → Type 0) → (Entries → Result Columns) → Type 0
Gives t P nested = t ≡ record_type → (r : Entries) (cs : Columns) → nested r ≡ ok cs → P cs

module _ (P : Columns → Type 0) (nested : Entries → Result Columns) where
  to_record-IsRow :
      ((r : Entries) (cs : Columns) → nested r ≡ ok cs → P cs)
      → (v : GoValue) (out : Value) → to_record nested v ≡ ok out
      → IsRow P out
  to_record-IsRow good (any_map m) out h = go (nested m) refl h
    where
      go :
          (r : Result Columns)
          → nested m ≡ r
          → (elim r as (λ x. Result Value) [ ok cs ↦ ok (row cs) | err e ↦ err e ]) ≡ ok out
          → IsRow P out
      go (ok cs) e k = subst (IsRow P) (ok_inj k) (good m cs e)
      go (err e) q k = cc
  to_record-IsRow good _ out h = cc

  marshal_accepted-Fits :
      (t : FieldType)
      → Gives t P nested
      → (v : GoValue) (out : Value) → marshal_accepted t nested v ≡ ok out
      → FitsScalar t P out
  unfolding marshal_accepted
  marshal_accepted-Fits string_type good v out h = to_text-IsText v out h
  marshal_accepted-Fits geography_type good v out h = to_text-IsText v out h
  marshal_accepted-Fits integer_type good v out h = marshal_integer-IsInteger v out h
  marshal_accepted-Fits float_type good v out h = to_float-IsFloat v out h
  marshal_accepted-Fits numeric_type good v out h = to_rational-IsRational v out h
  marshal_accepted-Fits big_numeric_type good v out h = to_rational-IsRational v out h
  marshal_accepted-Fits boolean_type good v out h = to_boolean-IsBoolean v out h
  marshal_accepted-Fits timestamp_type good v out h = to_time-IsTime v out h
  marshal_accepted-Fits date_type good v out h = to_date-IsDate v out h
  marshal_accepted-Fits time_type good v out h = to_civil_time-IsCivilTime v out h
  marshal_accepted-Fits datetime_type good v out h = to_datetime-IsDatetime v out h
  marshal_accepted-Fits bytes_type good v out h = to_bytes-IsBytes v out h
  marshal_accepted-Fits json_type good v out h = to_json-IsJson v out h
  marshal_accepted-Fits record_type good v out h = to_record-IsRow (good refl) v out h
  marshal_accepted-Fits _ good v out h = cc

  module _ (C : FieldType → Value → Type 0) where
    claimed-Fits :
        (t : FieldType) (c : Claim) (out : Value)
        → ((o : Value) → c.result ≡ ok o → C c.field_type o)
        → claimed t c ≡ ok out
        → C t out
    claimed-Fits t c out kept h = elim (Bool-cases (type_eq c.field_type t)) [
      | inl same ↦
          subst (λ x. C x out) ((type_eq_iff c.field_type t).0 same) (kept out (rw same at h))
      | inr other ↦ let h' = rw other at h in cc
    ]

    module _ (m : Marshalers) (keeps : AreClaimed C m) (t : FieldType)
        (good : Gives t P nested) where
      pub marshal_scalar-Fits :
          (v : GoValue) (out : Value) → marshal_scalar m t nested v ≡ ok out → FitsOne C t P out
      unfolding marshal_scalar
      marshal_scalar-Fits v out h = go (m.registered v) refl (m.own v) refl h
        where
          go :
              (a : Option Claim)
              → m.registered v ≡ a
              → (b : Option Claim) → m.own v ≡ b
              → (elim a as (λ x. Result Value) [
                | some c ↦ claimed t c
                | none ↦ elim b as (λ x. Result Value) [
                  | some c ↦ claimed t c
                  | none ↦ marshal_accepted t nested v
                ]
              ])
                ≡ ok out
              → FitsOne C t P out
          go (some c) e b f k = inr (claimed-Fits t c out (λ o q. keeps.registered v c o e q) k)
          go none e (some c) f k = inr (claimed-Fits t c out (λ o q. keeps.own v c o f q) k)
          go none e none f k = inl (marshal_accepted-Fits t good v out k)

      pub marshal_items-Fits :
          (vs : Items) (out : Values)
          → marshal_items m t nested vs ≡ ok out
          → FitsElements C t P out
      unfolding marshal_items
      marshal_items-Fits no_items out h = subst (FitsElements C t P) (ok_inj h) tt
      marshal_items-Fits (item v vs) out h = elim (Bool-cases (is_nil_any v)) [
        | inl nil ↦ let h' = rw nil at h in cc
        | inr given ↦
            go (λ o e. marshal_items-Fits vs o e) (marshal_scalar m t nested v) refl
              (marshal_items m t nested vs) refl (rw given at h)
      ]
        where
          go :
              ((o : Values) → marshal_items m t nested vs ≡ ok o → FitsElements C t P o)
              → (a : Result Value) → marshal_scalar m t nested v ≡ a
              → (b : Result Values) → marshal_items m t nested vs ≡ b
              → (elim a as (λ x. Result Values) [
                | err e ↦ err (wrap "element" e)
                | ok o ↦ elim b as (λ x. Result Values) [
                  | ok rest ↦ ok (value o rest)
                  | err e ↦ err e
                ]
              ])
                ≡ ok out
              → FitsElements C t P out
          go ih (err e) q b f k = cc
          go ih (ok o) q (err e) f k = cc
          go ih (ok o) q (ok rest) f k =
              subst (FitsElements C t P) (ok_inj k) (marshal_scalar-Fits v o q, ih rest f)
