-- ===== src/Tests/Embedded.antt =====
-- A row type that embeds another, and itself by a pointer.
use bqsink.Common.{
  ℕ, ◌≡◌, refl, Bool, true, false, ◌==◌, Bool-cases, inl, inr, arith, Option, none, some, List, [],
  ◌∷◌, String, str_eq, if◌then◌else◌,
}
use bqsink.Fault.{Result, ok}
use bqsink.Tags.{
  FieldTag, no_tag, parse_field_tags, parse_tag, read_options, read_option, check_options,
}
use bqsink.GoTypes.{
  basic, string_kind, int_kind, pointer_to, struct_type, StructField, Structs, deref,
}
use bqsink.Fields.{
  Candidate, collect_fields, search, walk_level, walk_fields, note_field, embedded_at, found_at,
  queued_at, resolve_collisions, sort_by_index, insert_by_index, is_winner, winner_for, shallowest,
}
use bqsink.Fields.Terminates.{IsClosed, collect_fields-ends}
use bqsink.Fields.Unique.{AreWinners, collect_fields-Dominant}
use bqsink.Common.Text.{split, cut}

abbrev no_keys : String → Option String
no_keys k = none

abbrev tagged_as : String → String → Option String
tagged_as v k = if str_eq k "bqsink" then some v else none

-- type Inner struct { ID int; Name string `bqsink:"label"` }
abbrev id_field : StructField
id_field = record {
  name = "ID";
  exported = true;
  anonymous = false;
  go_type = basic int_kind 0;
  keys = no_keys;
}

abbrev label_field : StructField
label_field = record {
  name = "Name";
  exported = true;
  anonymous = false;
  go_type = basic string_kind 0;
  keys = tagged_as "label";
}

-- type Outer struct { *Outer; Inner; ID int }
abbrev outer : List StructField
outer =
    record {
      name = "Outer";
      exported = true;
      anonymous = true;
      go_type = pointer_to (struct_type 7);
      keys = no_keys;
    }
    ∷ record {
      name = "Inner";
      exported = true;
      anonymous = true;
      go_type = struct_type 8;
      keys = no_keys;
    }
    ∷ id_field
    ∷ []

abbrev fields : Structs
fields n = if n == 7 then outer else if n == 8 then id_field ∷ label_field ∷ [] else []

abbrev parse : (String → Option String) → Result FieldTag
parse keys = parse_field_tags (λ s. s) (λ s. none) keys

abbrev kept_column : StructField → String → List ℕ → ℕ → Bool → Candidate
kept_column sf n i d tagged = record {
  field = sf;
  tag = record no_tag { name = if tagged then n else "" };
  name = n;
  index = i;
  depth = d;
  tagged = tagged;
}

-- The outer ID hides the embedded one, which comes first by its index.
abbrev kept : List Candidate
kept =
    kept_column label_field "label" (1 ∷ 1 ∷ []) 1 true
    ∷ kept_column id_field "ID" (2 ∷ []) 0 false
    ∷ []

collects : collect_fields fields parse 4 7 ≡ some (ok kept)
unfolding collect_fields search walk_level walk_fields note_field embedded_at found_at queued_at
    resolve_collisions sort_by_index insert_by_index is_winner winner_for shallowest deref
    parse_field_tags parse_tag read_options read_option check_options split cut
collects = refl

closed : IsClosed fields (7 ∷ 8 ∷ [])
unfolding deref
closed s h = elim (Bool-cases (s == 7)) [
  | inl is_outer ↦
      rw is_outer (λ k e. ground (arith, e), (λ k e. ground (arith, e), (λ k e. cc, tt)))
  | inr other ↦ elim (Bool-cases (s == 8)) [
    | inl is_inner ↦ rw (other, is_inner) (λ k e. cc, (λ k e. cc, tt))
    | inr neither ↦ absurd (ground (arith, h, other, neither))
  ]
]

collect_fields-ends_example :
    (r : Result (List Candidate)) × (collect_fields fields parse 4 7 ≡ some r)
collect_fields-ends_example = collect_fields-ends fields parse (7 ∷ 8 ∷ []) closed 7 refl

collect_fields-Dominant_example :
    (found : List Candidate) × (search fields parse 4
        (7 ∷ [])
        (record { struct = 7; index = [] } ∷ [])
        []
      ≡ some (ok found))
    × AreWinners found kept
collect_fields-Dominant_example = collect_fields-Dominant fields parse 4 7 kept collects
