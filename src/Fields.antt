-- ===== src/Fields.antt =====
-- fields.go: the columns that a struct type contributes. collectFields searches the embedded structs
-- breadth-first, level by level, on fuel for the levels; what a type's fields are is a parameter, and
-- so is parseFieldTags, which Tags models. A set of types is a list of their numbers.
pub mod Walking
pub mod Indices
pub mod Terminates
pub mod Members
pub mod Collisions
pub mod Ordered
pub mod Dominant
pub mod Unique
use bqsink.Common.{
  ℕ, suc, ◌+◌, String, Bool, true, false, not, ◌&&◌, ◌||◌, Option, none, some, List, [], ◌∷◌, ◌++◌,
  ltb, ◌==◌, str_eq, length, is_empty, keep_if, if◌then◌else◌,
}
use bqsink.Fault.{Error, wrap, wrapping, Result, ok, err}
use bqsink.Tags.{FieldTag}
use bqsink.GoTypes.{GoType, StructField, Structs, deref, struct_of}

-- candidateField of a field that becomes a column
pub record Candidate : Type 0 where
  pub field : StructField
  pub tag : FieldTag
  pub name : String
  pub index : List ℕ
  pub depth : ℕ
  pub tagged : Bool

-- candidateField of a struct to descend into: the struct and where it is.
pub record Parent : Type 0 where
  pub struct : ℕ
  pub index : List ℕ

abbrev pub has : ℕ → List ℕ → Bool
has n [] = false
has n (k ∷ ks) = n == k || has n ks

-- What the walk over one level has gathered.
pub record Level : Type 0 where
  pub found : List Candidate
  pub next : List ℕ
  pub queue : List Parent

abbrev is_some {ℓ} : {A : Type ℓ} → Option A → Bool
is_some none = false
is_some (some a) = true

unfoldable pub found_at : StructField → FieldTag → Parent → ℕ → Level → Level
found_at sf tag parent i l = record l {
  found =
      l.found
      ++ record {
        field = sf;
        tag = tag;
        name = if str_eq tag.name "" then sf.name else tag.name;
        index = parent.index ++ i ∷ [];
        depth = length parent.index;
        tagged = not (str_eq tag.name "");
      }
        ∷ [];
}

unfoldable pub queued_at : ℕ → Parent → ℕ → List ℕ → Level → Level
queued_at k parent i visited l = if has k visited || has k l.next then l else record l {
  next = l.next ++ k ∷ [];
  queue = l.queue ++ record { struct = k; index = parent.index ++ i ∷ [] } ∷ [];
}

-- An embedded field, given the struct that it embeds.
unfoldable pub embedded_at : Option ℕ → StructField → FieldTag → Parent → ℕ → List ℕ → Level → Level
embedded_at none sf tag parent i visited l = if sf.exported then found_at sf tag parent i l else l
embedded_at (some k) sf tag parent i visited l =
    if str_eq tag.name "" then queued_at k parent i visited l else found_at sf tag parent i l

-- The body of the loop over a struct's fields, once the tag is read.
unfoldable pub note_field : StructField → FieldTag → Parent → ℕ → List ℕ → Level → Level
note_field sf tag parent i visited l =
    if tag.skip
    then l
    else if sf.anonymous
    then embedded_at (struct_of (deref sf.go_type)) sf tag parent i visited l
    else if sf.exported
    then found_at sf tag parent i l
    else l

module _ (structs : Structs) (parse : (String → Option String) → Result FieldTag) where
  unfoldable pub walk_fields : List StructField → Parent → ℕ → List ℕ → Level → Result Level
  walk_fields [] parent i visited l = ok l
  walk_fields (sf ∷ sfs) parent i visited l = elim (parse sf.keys) [
    | err e ↦ err (wrap "bqsink: field" e)
    | ok tag ↦ walk_fields sfs parent (suc i) visited (note_field sf tag parent i visited l)
  ]

  unfoldable pub walk_level : List Parent → List ℕ → Level → Result Level
  walk_level [] visited l = ok l
  walk_level (p ∷ ps) visited l = elim (walk_fields (structs p.struct) p 0 visited l) [
    | err e ↦ err e
    | ok l' ↦ walk_level ps visited l'
  ]

  -- The loop over the levels; `none` is out of fuel.
  unfoldable pub search :
      ℕ → List ℕ → List Parent → List Candidate → Option (Result (List Candidate))
  search fuel visited [] found = some (ok found)
  search ℕ.zero visited (p ∷ ps) found = none
  search (suc fuel) visited (p ∷ ps) found =
      elim (walk_level (p ∷ ps) visited (record { found = found; next = []; queue = [] })) [
        | err e ↦ some (err e)
        | ok l ↦ search fuel (visited ++ l.next) l.queue l.found
      ]

-- byName[n] of resolveCollisions
abbrev pub named : String → List Candidate → List Candidate
named n cs = keep_if (λ c. str_eq c.name n) cs

unfoldable pub shallowest : ℕ → List Candidate → ℕ
shallowest d [] = d
shallowest d (c ∷ cs) = shallowest (if ltb c.depth d then c.depth else d) cs

-- The candidate that stands alone.
abbrev pub only : List Candidate → Option Candidate
only (c ∷ []) = some c
only _ = none

abbrev pub at_depth : ℕ → List Candidate → List Candidate
at_depth d cs = keep_if (λ c. c.depth == d) cs

abbrev pub tagged_of : List Candidate → List Candidate
tagged_of cs = keep_if (λ c. c.tagged) cs

abbrev pub or_tagged : Option Candidate → List Candidate → Option Candidate
or_tagged (some w) cs = some w
or_tagged none cs = only (tagged_of cs)

unfoldable pub winner_for : List Candidate → Option Candidate
winner_for [] = none
winner_for (c ∷ []) = some c
winner_for (c ∷ d ∷ cs) =
    let at = at_depth (shallowest c.depth (d ∷ cs)) (c ∷ d ∷ cs) in or_tagged (only at) at

-- slices.Equal
abbrev pub same_index : List ℕ → List ℕ → Bool
same_index [] [] = true
same_index (a ∷ xs) (b ∷ ys) = a == b && same_index xs ys
same_index _ _ = false

-- slices.Compare(a, b) < 0
abbrev pub before : List ℕ → List ℕ → Bool
before [] [] = false
before [] (b ∷ ys) = true
before (a ∷ xs) [] = false
before (a ∷ xs) (b ∷ ys) = ltb a b || (a == b && before xs ys)

abbrev is_index : List ℕ → Option Candidate → Bool
is_index i none = false
is_index i (some w) = same_index w.index i

-- The test of the loop of resolveCollisions.
unfoldable pub is_winner : List Candidate → Candidate → Bool
is_winner found f = is_index f.index (winner_for (named f.name found))

unfoldable pub insert_by_index : Candidate → List Candidate → List Candidate
insert_by_index c [] = c ∷ []
insert_by_index c (d ∷ ds) =
    let rest = insert_by_index c ds in if before d.index c.index then d ∷ rest else c ∷ d ∷ ds

-- slices.SortFunc by index
unfoldable pub sort_by_index : List Candidate → List Candidate
sort_by_index [] = []
sort_by_index (c ∷ cs) = insert_by_index c (sort_by_index cs)

unfoldable pub resolve_collisions : List Candidate → List Candidate
resolve_collisions found = sort_by_index (keep_if (λ f. is_winner found f) found)

abbrev resolved : Option (Result (List Candidate)) → Option (Result (List Candidate))
resolved none = none
resolved (some (err e)) = some (err e)
resolved (some (ok found)) = some (ok (resolve_collisions found))

-- collectFields of the struct type with this number
unfoldable pub collect_fields :
    Structs
    → ((String → Option String) → Result FieldTag)
    → ℕ
    → ℕ
    → Option (Result (List Candidate))
collect_fields structs parse fuel t =
    resolved (search structs parse fuel (t ∷ []) (record { struct = t; index = [] } ∷ []) [])
