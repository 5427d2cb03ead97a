-- ===== src/Tests/Plans.antt =====
-- A row type with a RECORD column and a REPEATED one, and a type that holds itself.
use bqsink.Common.{
  ℕ, ◌<◌, ◌≡◌, ◌≢◌, refl, sym, ◌∙◌, subst, Bool, true, false, ◌==◌, Bool-cases, inl, inr, arith,
  Option, none, some, List, [], ◌∷◌, String, str_eq, if◌then◌else◌, All,
}
use bqsink.Common.Text.{split, cut}
use bqsink.Fault.{Result, ok, ok_inj}
use bqsink.Column.{FieldType, record_type, string_type, integer_type}
use bqsink.Tags.{
  FieldTag, no_tag, parse_field_tags, parse_tag, read_options, read_option, check_options,
}
use bqsink.Declare.{RowPlan, column_names}
use bqsink.Layout.{resolve_layout, collect, note_partition, note_cluster}
use bqsink.GoTypes.{
  GoType, basic, string_kind, int_kind, pointer_to, slice_of, struct_type, StructField, Structs,
  deref, struct_of,
}
use bqsink.Marshal.{look_up}
use bqsink.Fields.{
  Candidate, collect_fields, search, walk_level, walk_fields, note_field, embedded_at, found_at,
  queued_at, resolve_collisions, sort_by_index, insert_by_index, is_winner, winner_for, shallowest,
}
use bqsink.Plan.{
  PlannedField, PlanFields, no_fields, field, field_plans, nested_schema, build_struct,
  build_fields, build_field, resolve_type, resolve_unclaimed, resolve_kind, well_known, finish_plan,
  table_meta_of,
}
use bqsink.Plan.Depth.{IsRanked, build_struct-Returns}
use bqsink.Plan.Endless.{element_type, build_struct-endless}
use bqsink.Plan.Shapes.{names, build_struct-AreShaped}
use bqsink.Plan.Types.{AreShaped}

abbrev tagged_as : String → String → Option String
tagged_as v k = if str_eq k "bqsink" then some v else none

abbrev named_field : String → String → GoType → StructField
named_field n tag t = record {
  name = n;
  exported = true;
  anonymous = false;
  go_type = t;
  keys = tagged_as tag;
}

abbrev id_field : StructField
id_field = named_field "ID" "id,required" (basic int_kind 0)

abbrev home_field : StructField
home_field = named_field "Home" "home,record" (pointer_to (struct_type 8))

abbrev notes_field : StructField
notes_field = named_field "Notes" "notes,required" (slice_of 0 (basic string_kind 0))

abbrev city_field : StructField
city_field = named_field "City" "" (basic string_kind 0)

abbrev next_field : StructField
next_field = named_field "Next" "next,record" (pointer_to (struct_type 9))

abbrev tables : Structs
tables n =
    if n == 7
    then id_field ∷ home_field ∷ notes_field ∷ []
    else if n == 8
    then city_field ∷ []
    else []

-- type Node struct { Next *Node `bqsink:"next,record"` }
abbrev nodes : Structs
nodes n = if n == 9 then next_field ∷ [] else []

abbrev parse : (String → Option String) → Result FieldTag
parse keys = parse_field_tags (λ s. s) (λ s. none) keys

abbrev candidate : StructField → FieldTag → String → ℕ → Bool → Candidate
candidate sf tag n i tagged = record {
  field = sf;
  tag = tag;
  name = n;
  index = i ∷ [];
  depth = 0;
  tagged = tagged;
}

abbrev found : List Candidate
found =
    candidate id_field (record no_tag { name = "id"; required = true }) "id" 0 true
    ∷ candidate home_field (record no_tag { name = "home"; is_record = true }) "home" 1 true
    ∷ candidate notes_field (record no_tag { name = "notes"; required = true }) "notes" 2 true
    ∷ []

abbrev inner : List Candidate
inner = candidate city_field no_tag "City" 0 false ∷ []

abbrev next : Candidate
next = candidate next_field (record no_tag { name = "next"; is_record = true }) "next" 0 true

finds : collect_fields tables parse 2 7 ≡ some (ok found)
unfolding collect_fields search walk_level walk_fields note_field embedded_at found_at queued_at
    resolve_collisions sort_by_index insert_by_index is_winner winner_for shallowest deref
    parse_field_tags parse_tag read_options read_option check_options split cut
finds = refl

finds_inner : collect_fields tables parse 2 8 ≡ some (ok inner)
unfolding collect_fields search walk_level walk_fields note_field embedded_at found_at queued_at
    resolve_collisions sort_by_index insert_by_index is_winner winner_for shallowest deref
    parse_field_tags parse_tag read_options read_option check_options split cut
finds_inner = refl

finds_next : collect_fields nodes parse 2 9 ≡ some (ok (next ∷ []))
unfolding collect_fields search walk_level walk_fields note_field embedded_at found_at queued_at
    resolve_collisions sort_by_index insert_by_index is_winner winner_for shallowest deref
    parse_field_tags parse_tag read_options read_option check_options split cut
finds_next = refl

-- A struct without fields has no columns.
finds_none :
    (structs : Structs) (t : ℕ) → structs t ≡ [] → collect_fields structs parse 2 t ≡ some (ok [])
unfolding collect_fields search walk_level walk_fields resolve_collisions sort_by_index
finds_none structs t e = rw (e, collect_fields, search, walk_level, walk_fields) refl

-- No type here declares its own column.
abbrev no_own : GoType → Option FieldType
no_own t = none

build_struct-endless_example : build_struct nodes parse no_own 2 none 100 9 ≡ none
unfolding look_up deref well_known table_meta_of
build_struct-endless_example =
    build_struct-endless nodes parse no_own 2 none 9 next []
      (record { description = ""; labels = [] }) finds_next refl
      (record {
        asks = refl;
        no_time = refl;
        is_of = refl;
        unregistered = refl;
        not_own = refl;
        no_scalar = refl;
      })
      100

collects : (t : ℕ) → (r : Result (List Candidate)) × (collect_fields tables parse 2 t ≡ some r)
collects t = elim (Bool-cases (t == 7)) [
  | inl is_7 ↦ (
    ok found,
    subst (λ n. collect_fields tables parse 2 n ≡ some (ok found)) (ground (arith, is_7)) finds,
  )
  | inr not_7 ↦ elim (Bool-cases (t == 8)) [
    | inl is_8 ↦ (
      ok inner,
      subst (λ n. collect_fields tables parse 2 n ≡ some (ok inner)) (ground (arith, is_8))
          finds_inner,
    )
    | inr not_8 ↦ (ok [], finds_none tables t (rw (not_7, not_8) refl))
  ]
]

abbrev rank : ℕ → ℕ
rank n = if n == 7 then 1 else 0

-- Only the type that holds the other has a RECORD column.
Lower : ℕ → List Candidate → Type 0
Lower t cs =
    All
      (λ c.
        c.tag.is_record ≡ true → (n : ℕ) → struct_of (deref (type_of c)) ≡ some n → rank n < rank t)
      cs
  where
    type_of : Candidate → GoType
    type_of c = element_type tables parse no_own 2 none c

one_list :
    (t : ℕ) {cs ds : List Candidate}
    → collect_fields tables parse 2 t ≡ some (ok ds)
    → collect_fields tables parse 2 t ≡ some (ok cs)
    → ds ≡ cs
one_list t {ds} e h = ok_inj (some_inj (sym e ∙ h))
  where
    some_inj : {a b : Result (List Candidate)} → some a ≡ some b → a ≡ b
    some_inj k = cc

ranked : IsRanked tables parse no_own 2 none rank
unfolding deref Lower
ranked t cs h = elim (Bool-cases (t == 7)) [
  | inl is_7 ↦
      subst
        (λ n. (cs : List Candidate) → collect_fields tables parse 2 n ≡ some (ok cs) → Lower n cs)
        (ground (arith, is_7))
        (λ cs h.
          subst (Lower 7) (one_list 7 finds h)
            ((λ a n e. cc), ((λ a n e. ground (arith, e)), ((λ a n e. cc), tt))))
        cs h
  | inr not_7 ↦ elim (Bool-cases (t == 8)) [
    | inl is_8 ↦
        subst
          (λ n. (cs : List Candidate) → collect_fields tables parse 2 n ≡ some (ok cs) → Lower n cs)
          (ground (arith, is_8))
          (λ cs h. subst (Lower 8) (one_list 8 finds_inner h) ((λ a n e. cc), tt)) cs h
    | inr not_8 ↦ subst (Lower t) (one_list t (finds_none tables t (rw (not_7, not_8) refl)) h) tt
  ]
]

build_struct-Returns_example :
    (r : Result (PlanFields × RowPlan)) × (build_struct tables parse no_own 2 none 2 7 ≡ some r)
build_struct-Returns_example =
    build_struct-Returns tables parse no_own 2 none rank collects ranked 2 7 (omega arith)

abbrev blank_column : PlannedField
blank_column = record {
  name = "";
  index = 0 ∷ [];
  required = false;
  repeated = false;
  null_if_zero = false;
  description = "";
  field_type = string_type;
  conversion = none;
}

abbrev pub columns : PlanFields
columns =
    field (record blank_column { name = "id"; required = true; field_type = integer_type })
      no_fields
      (field (record blank_column { name = "home"; index = 1 ∷ []; field_type = record_type })
        (field (record blank_column { name = "City" }) no_fields no_fields)
        (field (record blank_column { name = "notes"; index = 2 ∷ []; repeated = true }) no_fields
          no_fields))

abbrev plan : RowPlan
plan = record {
  fields = field_plans columns;
  partitioning = none;
  clustering = none;
  require_filter = false;
  description = "";
  labels = [];
}

builds : build_struct tables parse no_own 2 none 2 7 ≡ some (ok (columns, plan))
unfolding build_struct collect_fields search walk_level walk_fields note_field embedded_at found_at
    queued_at resolve_collisions sort_by_index insert_by_index is_winner winner_for shallowest deref
    parse_field_tags parse_tag read_options read_option check_options split cut build_fields
    build_field resolve_type resolve_unclaimed resolve_kind well_known finish_plan table_meta_of
    resolve_layout collect note_partition note_cluster field_plans nested_schema look_up
builds = refl

build_struct-AreShaped_example :
    (columns ≢ no_fields)
    × AreShaped columns
    × (plan.fields ≡ field_plans columns)
    × ((cs : List Candidate) × (collect_fields tables parse 2 7 ≡ some (ok cs))
        × (column_names plan.fields ≡ names cs))
build_struct-AreShaped_example =
    build_struct-AreShaped tables parse no_own 2 none 2 7 columns plan builds
