-- ===== src/Plan/Depth.antt =====
-- The plan of a struct type is made, when its RECORD columns do not go round in a circle.
use bqsink.Common.{
  ℕ, zero, suc, ◌<◌, String, ◌≡◌, refl, Bool, true, false, Option, none, some, List, [], ◌∷◌,
  str_eq, All, All-map, arith,
}
use bqsink.Fault.{message, wrapping, Result, ok, err}
use bqsink.Column.{FieldType}
use bqsink.Tags.{FieldTag}
use bqsink.Declare.{RowPlan}
use bqsink.GoTypes.{GoType, Structs, deref, struct_of}
use bqsink.Marshal.{TypeMarshaler, Registry, look_up}
use bqsink.Fields.{Candidate, collect_fields}
use bqsink.Plan.{
  registered, own, PlanFields, no_fields, Resolved, plain, well_known, resolve_time_type,
  resolve_kind, declared, and_then, naming, as_record, table_meta_of, resolve_unclaimed,
  resolve_type, build_field, build_fields, finish_plan, build_struct,
}
use bqsink.Plan.Endless.{element_type}

Returns : {A : Type 0} → Option (Result A) → Type 0
Returns {A} o = (r : Result A) × (o ≡ some r)

module _ {A B : Type 0} where
  and_then-Returns :
      (m : Option (Result A)) (rest : A → Option (Result B))
      → Returns m
      → ((a : A) → m ≡ some (ok a) → Returns (rest a))
      → Returns (and_then m rest)
  unfolding Returns
  and_then-Returns none rest (r, e) h = cc
  and_then-Returns (some (err x)) rest m h = (err x, refl)
  and_then-Returns (some (ok a)) rest m h = h a refl

naming-Returns :
    {A : Type 0} (text : String) (m : Option (Result A)) → Returns m → Returns (naming text m)
unfolding Returns
naming-Returns text none (r, e) = cc
naming-Returns text (some r) h = (wrapping text r, refl)

module _ (structs : Structs) (parse : (String → Option String) → Result FieldTag)
    (own_type : GoType → Option FieldType) (levels : ℕ) (marshalers : Option Registry) where
  abbrev type_of : Candidate → GoType
  type_of c = element_type structs parse own_type levels marshalers c

  module _ (nested : ℕ → Option (Result PlanFields)) where
    resolve_unclaimed-Returns :
        (dt : GoType) (tag : FieldTag)
        → (tag.is_record ≡ true → (n : ℕ) → struct_of dt ≡ some n → Returns (nested n))
        → Returns (resolve_unclaimed structs parse own_type levels marshalers nested dt tag)
    unfolding resolve_unclaimed Returns
    resolve_unclaimed-Returns dt tag h = go (well_known dt) tag.is_record refl (struct_of dt) refl
      where
        go :
            (o : Option FieldType) (b : Bool)
            → tag.is_record ≡ b
            → (s : Option ℕ) → struct_of dt ≡ s
            → Returns (elim o as (λ x. Option (Result Resolved)) [
              | some t ↦ some (ok (plain t))
              | none ↦ elim b as (λ x. Option (Result Resolved)) [
                | false ↦ some (resolve_kind dt)
                | true ↦ elim s as (λ x. Option (Result Resolved)) [
                  | none ↦ some (err (message "the record option needs a struct"))
                  | some n ↦ and_then (nested n) as_record
                ]
              ]
            ])
        go (some t) b e s f = (_, refl)
        go none false e s f = (_, refl)
        go none true e none f = (_, refl)
        go none true e (some n) f =
            and_then-Returns (nested n) as_record (h e n f) (λ a q. (_, refl))

    resolve_type-Returns :
        (t : GoType) (tag : FieldTag)
        → Returns (resolve_unclaimed structs parse own_type levels marshalers nested (deref t) tag)
        → Returns (resolve_type structs parse own_type levels marshalers nested t tag)
    unfolding resolve_type Returns
    resolve_type-Returns t tag h =
        go (str_eq tag.time_type "") (look_up marshalers t) (own_type (deref t))
      where
        go :
            (b : Bool) (m : Option TypeMarshaler) (o : Option FieldType)
            → Returns (elim b as (λ x. Option (Result Resolved)) [
              | false ↦ some (resolve_time_type marshalers t tag)
              | true ↦ elim m as (λ x. Option (Result Resolved)) [
                | some m ↦ some (declared m.field_type registered)
                | none ↦ elim o as (λ x. Option (Result Resolved)) [
                  | some ft ↦ some (declared ft own)
                  | none ↦
                      resolve_unclaimed structs parse own_type levels marshalers nested
                        (deref t)
                        tag
                ]
              ]
            ])
        go false m o = (_, refl)
        go true (some m) o = (_, refl)
        go true none (some ft) = (_, refl)
        go true none none = h

    -- Whatever a column needs of nested plans returns.
    Supplied : Candidate → Type 0
    Supplied c =
        c.tag.is_record ≡ true
        → (n : ℕ) → struct_of (deref (type_of c)) ≡ some n
        → Returns (nested n)

    build_fields-Returns :
        (cs : List Candidate)
        → All Supplied cs
        → Returns (build_fields structs parse own_type levels marshalers nested cs)
    unfolding build_fields build_field Returns Supplied
    build_fields-Returns [] h = (ok no_fields, refl)
    build_fields-Returns (c ∷ cs) h =
        and_then-Returns (build_field structs parse own_type levels marshalers nested c) _
          (and_then-Returns _ _
            (naming-Returns "bqsink: field" _ (
              resolve_type-Returns (type_of c) c.tag
                (resolve_unclaimed-Returns (deref (type_of c)) c.tag h.0)))
            (λ r e. (_, refl)))
          (λ put e.
            and_then-Returns (build_fields structs parse own_type levels marshalers nested cs) _
              (build_fields-Returns cs h.1) (λ rest q. (_, refl)))

  -- Each struct type that a RECORD column is of has a lower rank.
  abbrev pub IsRanked : (ℕ → ℕ) → Type 0
  IsRanked rank =
      (t : ℕ) (cs : List Candidate)
      → collect_fields structs parse levels t ≡ some (ok cs)
      → All
          (λ c.
            c.tag.is_record ≡ true
            → (n : ℕ) → struct_of (deref (type_of c)) ≡ some n
            → rank n < rank t)
          cs

  -- Where collectFields returns for every struct type, and each column with the record option is of a
  -- struct type of a lower rank than the one that holds it, buildRowPlanFor returns, with a plan or
  -- an error: its calls go no deeper than the type's rank.
  pub build_struct-Returns :
      (rank : ℕ → ℕ)
      → ((t : ℕ) → (r : Result (List Candidate)) × (collect_fields structs parse levels t ≡ some r))
      → IsRanked rank
      → (fuel t : ℕ) → rank t < fuel
      → (r : Result (PlanFields × RowPlan)) × (build_struct structs parse own_type levels marshalers
            fuel t
          ≡ some r)
  unfolding build_struct Returns Supplied
  build_struct-Returns rank collects ranked zero t h = absurd (omega arith)
  build_struct-Returns rank collects ranked (suc fuel) t h =
      let deeper = build_struct-Returns rank collects ranked fuel in
      and_then-Returns (collect_fields structs parse levels t) _ (collects t) (λ cs found.
        and_then-Returns (some (wrapping "bqsink" (table_meta_of (structs t)))) _ (_, refl)
          (λ meta e.
            and_then-Returns _ _
              (build_fields-Returns _ cs (
                All-map
                  (λ c lower asks n is_n.
                    and_then-Returns (build_struct structs parse own_type levels marshalers fuel n)
                      _ (deeper n (omega (arith, h, lower asks n is_n))) (λ built q. (_, refl)))
                  cs (ranked t cs found)))
              (λ columns q.
                planned (finish_plan structs parse own_type levels marshalers cs meta columns)
                  columns)))
    where
      planned :
          (r : Result RowPlan) (columns : PlanFields)
          → Returns (elim r as (λ x. Option (Result (PlanFields × RowPlan))) [
            | err e ↦ some (err e)
            | ok plan ↦ some (ok (columns, plan))
          ])
      planned (err e) columns = (_, refl)
      planned (ok plan) columns = (_, refl)
