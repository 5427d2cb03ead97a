-- ===== src/Plan/Endless.antt =====
-- A struct type that holds itself as a RECORD column: buildRowPlanFor calls itself on it without end.
use bqsink.Common.{ℕ, zero, suc, String, ◌≡◌, refl, true, Option, none, some, List, ◌∷◌, str_eq}
use bqsink.Fault.{Result, ok}
use bqsink.Column.{FieldType}
use bqsink.Tags.{FieldTag}
use bqsink.GoTypes.{GoType, Structs, deref, struct_of, repeated_element}
use bqsink.Marshal.{Registry, look_up}
use bqsink.Fields.{Candidate, collect_fields}
use bqsink.Plan.{
  PlanFields, well_known, and_then, TableMetaTag, table_meta_of, resolve_unclaimed, resolve_type,
  element_or, build_field, build_fields, build_struct,
}

module _ (structs : Structs) (parse : (String → Option String) → Result FieldTag)
    (own_type : GoType → Option FieldType) (levels : ℕ) (marshalers : Option Registry) where
  -- The type of a column, or of its elements where it is repeated.
  abbrev pub element_type : Candidate → GoType
  element_type c =
      element_or structs parse own_type levels marshalers (deref c.field.go_type)
        (repeated_element (deref c.field.go_type))

  -- The column asks for a RECORD of the struct type, and nothing else claims it.
  pub record IsRecordOf (c : Candidate) (t : ℕ) : Type 0 where
    pub asks : c.tag.is_record ≡ true
    pub no_time : str_eq c.tag.time_type "" ≡ true
    pub is_of : struct_of (deref (element_type c)) ≡ some t
    pub unregistered : look_up marshalers (element_type c) ≡ none
    pub not_own : own_type (deref (element_type c)) ≡ none
    pub no_scalar : well_known (deref (element_type c)) ≡ none

  resolve_unclaimed-none :
      (nested : ℕ → Option (Result PlanFields)) (dt : GoType) (tag : FieldTag) (t : ℕ)
      → well_known dt ≡ none
      → tag.is_record ≡ true
      → struct_of dt ≡ some t
      → nested t ≡ none
      → resolve_unclaimed structs parse own_type levels marshalers nested dt tag ≡ none
  unfolding resolve_unclaimed
  resolve_unclaimed-none nested dt tag t scalar asks struct stuck =
      rw (scalar, asks, struct, stuck, resolve_unclaimed) refl

  resolve_type-none :
      (nested : ℕ → Option (Result PlanFields)) (u : GoType) (tag : FieldTag) (t : ℕ)
      → str_eq tag.time_type "" ≡ true
      → look_up marshalers u ≡ none
      → own_type (deref u) ≡ none
      → resolve_unclaimed structs parse own_type levels marshalers nested (deref u) tag ≡ none
      → resolve_type structs parse own_type levels marshalers nested u tag ≡ none
  unfolding resolve_type
  resolve_type-none nested u tag t time unregistered not_own rest =
      rw (time, unregistered, not_own, resolve_type) rest

  build_field-none :
      (nested : ℕ → Option (Result PlanFields)) (c : Candidate) (t : ℕ)
      → IsRecordOf c t
      → nested t ≡ none
      → build_field structs parse own_type levels marshalers nested c ≡ none
  unfolding build_field
  build_field-none nested c t r stuck =
      let never : resolve_type structs parse own_type levels marshalers nested (element_type c)
            c.tag
          ≡ none =
        resolve_type-none nested (element_type c) c.tag t r.no_time r.unregistered r.not_own (
          resolve_unclaimed-none nested (deref (element_type c)) c.tag t r.no_scalar r.asks r.is_of
            stuck) in
      rw never refl

  -- When the first column that a struct type contributes is a RECORD of that same type, by the record
  -- option, buildRowPlanFor never returns for it: no depth of the calls is enough.
  pub build_struct-endless :
      (t : ℕ) (c : Candidate) (cs : List Candidate) (meta : TableMetaTag)
      → collect_fields structs parse levels t ≡ some (ok (c ∷ cs))
      → table_meta_of (structs t) ≡ ok meta
      → IsRecordOf c t
      → (fuel : ℕ) → build_struct structs parse own_type levels marshalers fuel t ≡ none
  unfolding build_struct build_fields
  build_struct-endless t c cs meta found described r zero = refl
  build_struct-endless t c cs meta found described r (suc fuel) =
      let deeper = build_struct-endless t c cs meta found described r fuel in
      let nested : ℕ → Option (Result PlanFields) = λ n.
        and_then (build_struct structs parse own_type levels marshalers fuel n)
          (λ built. some (ok built.0)) in
      let stuck : nested t ≡ none = rw deeper refl in
      rw (found, described, build_field-none nested c t r stuck) refl
