-- ===== src/Plan/Shapes.antt =====
-- The plan that a struct type comes to, its columns and their names.
use bqsink.Common.{
  ℕ, zero, suc, String, ◌≡◌, ◌≢◌, refl, ap, sym, ◌∙◌, subst, inl, inr, Bool, true, false, not, ◌&&◌,
  Option, none, some, List, [], ◌∷◌, str_eq,
}
use bqsink.Fault.{message, wrap, wrapping, Result, ok, err, ok_inj}
use bqsink.Column.{FieldType}
use bqsink.Tags.{FieldTag}
use bqsink.Declare.{RowPlan}
use bqsink.GoTypes.{GoType, Structs, deref, struct_of, repeated_element}
use bqsink.Marshal.{TypeMarshaler, Registry, look_up}
use bqsink.Fields.{Candidate, collect_fields}
use bqsink.Plan.{
  registered, own, PlanFields, no_fields, field, field_plans, Resolved, plain, well_known,
  resolve_time_type, resolve_kind, declared, and_then, naming, as_record, TableMetaTag,
  table_meta_of, resolve_unclaimed, resolve_type, column_of, is_given, build_field, build_fields,
  finish_plan, build_struct,
}
use bqsink.Declare.{column_names}
use bqsink.Layout.{Layout, resolve_layout}
use bqsink.Plan.{tagged_fields}
use bqsink.Plan.Endless.{element_type}
use bqsink.Plan.Types.{
  IsShaped, AreShaped, IsFit, IfFit, IsScalar, plain-IsFit, resolve_kind-IfFit, declared-IfFit,
  well_known-IsScalar, resolve_time_type-IfFit,
}

-- What follows a call that returned.
and_then-ok :
    {A B : Type 0} (m : Option (Result A)) (rest : A → Option (Result B)) (b : B)
    → and_then m rest ≡ some (ok b)
    → (a : A) × (m ≡ some (ok a)) × (rest a ≡ some (ok b))
and_then-ok none rest b h = cc
and_then-ok (some (err e)) rest b h = cc
and_then-ok (some (ok a)) rest b h = (a, refl, h)

naming-ok :
    {A : Type 0} (text : String) (m : Option (Result A)) (a : A)
    → naming text m ≡ some (ok a)
    → m ≡ some (ok a)
naming-ok text none a h = cc
naming-ok text (some (err e)) a h = cc
naming-ok text (some (ok b)) a h = h

some_inj : {A : Type 0} {a b : A} → some a ≡ some b → a ≡ b
some_inj {a} h = cc

abbrev pub names : List Candidate → List String
names [] = []
names (c ∷ cs) = c.name ∷ names cs

-- A nested plan has columns, all of the right shape.
abbrev IsNested : PlanFields → Type 0
IsNested columns = (columns ≢ no_fields) × AreShaped columns

module _ (structs : Structs) (parse : (String → Option String) → Result FieldTag)
    (own_type : GoType → Option FieldType) (levels : ℕ) (marshalers : Option Registry)
    (nested : ℕ → Option (Result PlanFields))
    (good : (n : ℕ) (columns : PlanFields) → nested n ≡ some (ok columns) → IsNested columns) where
  from-IfFit : (r : Resolved) (x : Result Resolved) → IfFit x → some x ≡ some (ok r) → IsFit r
  unfolding IfFit
  from-IfFit r x h e = subst IfFit (some_inj e) h

  resolve_unclaimed-IsFit :
      (dt : GoType) (tag : FieldTag) (r : Resolved)
      → resolve_unclaimed structs parse own_type levels marshalers nested dt tag ≡ some (ok r)
      → IsFit r
  unfolding resolve_unclaimed IfFit IsScalar IsFit
  resolve_unclaimed-IsFit dt tag r h =
      go (well_known dt) (well_known-IsScalar dt) tag.is_record (struct_of dt) h
    where
      record_of : (n : ℕ) → and_then (nested n) as_record ≡ some (ok r) → IsFit r
      record_of n k =
          let (columns, e, q) = and_then-ok (nested n) as_record r k in
          subst IsFit (ok_inj (some_inj q))
            (inl (refl, refl, (good n columns e).0, (good n columns e).1))

      go :
          (o : Option FieldType)
          → IsScalar o
          → (b : Bool) (s : Option ℕ)
          → (elim o as (λ x. Option (Result Resolved)) [
            | some t ↦ some (ok (plain t))
            | none ↦ elim b as (λ x. Option (Result Resolved)) [
              | false ↦ some (resolve_kind dt)
              | true ↦ elim s as (λ x. Option (Result Resolved)) [
                | none ↦ some (err (message "the record option needs a struct"))
                | some n ↦ and_then (nested n) as_record
              ]
            ]
          ])
            ≡ some (ok r)
          → IsFit r
      go (some t) scalar b s k = from-IfFit r (ok (plain t)) (plain-IsFit t scalar.0 scalar.1) k
      go none scalar false s k = from-IfFit r (resolve_kind dt) (resolve_kind-IfFit dt) k
      go none scalar true none k = cc
      go none scalar true (some n) k = record_of n k

  resolve_type-IsFit :
      (t : GoType) (tag : FieldTag) (r : Resolved)
      → resolve_type structs parse own_type levels marshalers nested t tag ≡ some (ok r)
      → IsFit r
  unfolding resolve_type
  resolve_type-IsFit t tag r h =
      go (str_eq tag.time_type "") (look_up marshalers t) (own_type (deref t)) h
    where
      go :
          (b : Bool) (m : Option TypeMarshaler) (o : Option FieldType)
          → (elim b as (λ x. Option (Result Resolved)) [
            | false ↦ some (resolve_time_type marshalers t tag)
            | true ↦ elim m as (λ x. Option (Result Resolved)) [
              | some m ↦ some (declared m.field_type registered)
              | none ↦ elim o as (λ x. Option (Result Resolved)) [
                | some ft ↦ some (declared ft own)
                | none ↦
                    resolve_unclaimed structs parse own_type levels marshalers nested (deref t) tag
              ]
            ]
          ])
            ≡ some (ok r)
          → IsFit r
      go false m o k =
          from-IfFit r (resolve_time_type marshalers t tag)
            (resolve_time_type-IfFit marshalers t tag) k
      go true (some m) o k =
          from-IfFit r (declared m.field_type registered) (declared-IfFit m.field_type registered) k
      go true none (some ft) k = from-IfFit r (declared ft own) (declared-IfFit ft own) k
      go true none none k = resolve_unclaimed-IsFit (deref t) tag r k

  shape_of :
      (c : Candidate) (repeated : Bool) (r : Resolved)
      → IsFit r
      → IsShaped (column_of structs parse own_type levels marshalers c repeated r) r.nested
        × AreShaped r.nested
  unfolding IsFit
  shape_of c repeated r (inl (t, conv, inner, shaped)) =
      ((never_both, inl (t, conv, inner)), shaped)
    where
      never_both : repeated ≡ true → (not repeated && c.tag.required) ≡ false
      never_both e = rw e refl
  shape_of c repeated r (inr (t, flat, conv)) =
      ((never_both, inr (t, flat, conv)), subst AreShaped (sym flat) tt)
    where
      never_both : repeated ≡ true → (not repeated && c.tag.required) ≡ false
      never_both e = rw e refl

  abbrev type_of : Candidate → GoType
  type_of c = element_type structs parse own_type levels marshalers c

  abbrev resolved : Candidate → Option (Result Resolved)
  resolved c = resolve_type structs parse own_type levels marshalers nested (type_of c) c.tag

  build_fields-AreShaped :
      (cs : List Candidate) (columns : PlanFields)
      → build_fields structs parse own_type levels marshalers nested cs ≡ some (ok columns)
      → AreShaped columns × (column_names (field_plans columns) ≡ names cs)
  unfolding build_fields build_field column_names field_plans
  build_fields-AreShaped [] columns h =
      subst (λ x. AreShaped x × (column_names (field_plans x) ≡ [])) (ok_inj (some_inj h))
        (tt, refl)
  build_fields-AreShaped (c ∷ cs) columns h =
      let (put, p, k) =
        and_then-ok (build_field structs parse own_type levels marshalers nested c) _ columns h in
      let (r, q, e) = and_then-ok (naming "bqsink: field" (resolved c)) _ put p in
      let (rest, m, f) =
        and_then-ok (build_fields structs parse own_type levels marshalers nested cs) _ columns k in
      let (shaped, same) = build_fields-AreShaped cs rest m in
      let (one, inner) =
        shape_of c (is_given (repeated_element (deref c.field.go_type))) r
          (resolve_type-IsFit (type_of c) c.tag r (naming-ok "bqsink: field" (resolved c) r q)) in
      subst (λ x. AreShaped x × (column_names (field_plans x) ≡ c.name ∷ names cs))
        (ap (λ g. g rest) (ok_inj (some_inj e)) ∙ ok_inj (some_inj f))
        ((one, inner, shaped), ap (λ ns. c.name ∷ ns) same)

module _ (structs : Structs) (parse : (String → Option String) → Result FieldTag)
    (own_type : GoType → Option FieldType) (levels : ℕ) (marshalers : Option Registry) where
  finish_plan-fields :
      (cs : List Candidate) (meta : TableMetaTag) (columns : PlanFields) (plan : RowPlan)
      → finish_plan structs parse own_type levels marshalers cs meta columns ≡ ok plan
      → (plan.fields ≡ field_plans columns) × (columns ≢ no_fields)
  unfolding finish_plan field_plans
  finish_plan-fields cs meta no_fields plan h = cc
  finish_plan-fields cs meta (field c inner rest) plan h =
      go (resolve_layout (tagged_fields (field_plans (field c inner rest)) cs)) h
    where
      columns : PlanFields
      columns = field c inner rest

      go :
          (r : Result Layout)
          → (elim r as (λ x. Result RowPlan) [
            | err e ↦ err (wrap "bqsink" e)
            | ok layout ↦ ok (record {
              fields = field_plans columns;
              partitioning = layout.partitioning;
              clustering = layout.clustering;
              require_filter = layout.require_filter;
              description = meta.description;
              labels = meta.labels;
            })
          ])
            ≡ ok plan
          → (plan.fields ≡ field_plans columns) × (columns ≢ no_fields)
      go (err e) k = cc
      go (ok layout) k = (ap (λ x. x.fields) (sym (ok_inj k)), λ e. cc)

  -- A plan that buildRowPlanFor makes has at least one column; its columns have, in order, the names
  -- of the columns that collectFields returns; and at every depth, a REPEATED column is not REQUIRED, a
  -- RECORD has columns of its own and no conversion, and any other column has none of its own, and a
  -- conversion if it is JSON.
  pub build_struct-AreShaped :
      (fuel t : ℕ) (columns : PlanFields) (plan : RowPlan)
      → build_struct structs parse own_type levels marshalers fuel t ≡ some (ok (columns, plan))
      → (columns ≢ no_fields)
        × AreShaped columns
        × (plan.fields ≡ field_plans columns)
        × ((cs : List Candidate) × (collect_fields structs parse levels t ≡ some (ok cs))
            × (column_names plan.fields ≡ names cs))
  unfolding build_struct
  build_struct-AreShaped zero t columns plan h = cc
  build_struct-AreShaped (suc fuel) t columns plan h =
      let (cs, found, a) =
        and_then-ok (collect_fields structs parse levels t) _ (columns, plan) h in
      let (meta, m, b) =
        and_then-ok (some (wrapping "bqsink" (table_meta_of (structs t)))) _ (columns, plan) a in
      let (made, f, d) =
        and_then-ok (build_fields structs parse own_type levels marshalers deeper cs) _
          (columns, plan) b in
      let (same, done) =
        split_plan (finish_plan structs parse own_type levels marshalers cs meta made) made d in
      let (shaped, order) =
        build_fields-AreShaped structs parse own_type levels marshalers deeper
          (λ n inner e.
            let (built, q, k) =
              and_then-ok (build_struct structs parse own_type levels marshalers fuel n) _ inner
                e in
            let (some_fields, fine, _, _) = build_struct-AreShaped fuel n built.0 built.1 q in
            subst IsNested (ok_inj (some_inj k)) (some_fields, fine))
          cs made f in
      let (fields, not_empty) = finish_plan-fields cs meta made plan done in
      subst
        (λ x.
          (x ≢ no_fields)
          × AreShaped x
          × (plan.fields ≡ field_plans x)
          × ((cs : List Candidate) × (collect_fields structs parse levels t ≡ some (ok cs))
              × (column_names plan.fields ≡ names cs)))
        same (not_empty, shaped, fields, (cs, found, ap column_names fields ∙ order))
    where
      deeper : ℕ → Option (Result PlanFields)
      deeper n =
          and_then (build_struct structs parse own_type levels marshalers fuel n)
            (λ built. some (ok built.0))

      split_plan :
          (r : Result RowPlan) (made : PlanFields)
          → (elim r as (λ x. Option (Result (PlanFields × RowPlan))) [
            | err e ↦ some (err e)
            | ok plan ↦ some (ok (made, plan))
          ])
            ≡ some (ok (columns, plan))
          → (made ≡ columns) × (r ≡ ok plan)
      split_plan (err e) made k = cc
      split_plan (ok p) made k =
          let same : (made, p) ≡ (columns, plan) = ok_inj (some_inj k) in
          (ap (λ x. x.0) same, ap (λ x. ok x.1) same)
