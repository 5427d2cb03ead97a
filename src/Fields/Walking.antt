-- ===== src/Fields/Walking.antt =====
-- What holds of the walk over a struct's fields when it holds of the step for one field.
use bqsink.Common.{
  ℕ, suc, String, ◌≡◌, refl, subst, Bool, true, false, Option, none, some, List, [], ◌∷◌, str_eq,
  All, if◌then◌else◌,
}
use bqsink.Fault.{wrap, Result, ok, err, ok_inj}
use bqsink.Tags.{FieldTag}
use bqsink.GoTypes.{StructField, Structs, deref, struct_of}
use bqsink.Fields.{
  Parent, Level, found_at, queued_at, embedded_at, note_field, walk_fields, walk_level,
}

module _ {κ} (P : Level → Type κ) (sf : StructField) (tag : FieldTag) (p : Parent) (i : ℕ)
    (visited : List ℕ) (l : Level) where
  choose : (b : Bool) (x y : Level) → P x → P y → P (if b then x else y)
  choose true x y h k = h
  choose false x y h k = k

  embedded_at-keeps :
      (o : Option ℕ)
      → P l
      → P (found_at sf tag p i l)
      → ((k : ℕ) → o ≡ some k → P (queued_at k p i visited l))
      → P (embedded_at o sf tag p i visited l)
  unfolding embedded_at
  embedded_at-keeps none same column below =
      choose sf.exported (found_at sf tag p i l) l column same
  embedded_at-keeps (some k) same column below =
      choose (str_eq tag.name "") (queued_at k p i visited l) (found_at sf tag p i l) (below k refl)
        column

  -- A field leaves the level as it is, adds a column or adds a struct to descend into.
  pub note_field-keeps :
      P l
      → P (found_at sf tag p i l)
      → ((k : ℕ) → struct_of (deref sf.go_type) ≡ some k → P (queued_at k p i visited l))
      → P (note_field sf tag p i visited l)
  unfolding note_field
  note_field-keeps same column below =
      let embedded : Level = embedded_at (struct_of (deref sf.go_type)) sf tag p i visited l in
      choose tag.skip l
        (if sf.anonymous then embedded else if sf.exported then found_at sf tag p i l else l) same
        (choose sf.anonymous embedded (if sf.exported then found_at sf tag p i l else l)
          (embedded_at-keeps (struct_of (deref sf.go_type)) same column below)
          (choose sf.exported (found_at sf tag p i l) l column same))

module _ {κ} (P : ℕ → Level → Type κ) (structs : Structs)
    (parse : (String → Option String) → Result FieldTag) (p : Parent) (visited : List ℕ) where
  pub walk_fields-keeps :
      (sfs : List StructField) (i : ℕ) (l l' : Level)
      → All
          (λ sf.
            (tag : FieldTag) (i : ℕ) (l : Level)
            → P i l
            → P (suc i) (note_field sf tag p i visited l))
          sfs
      → P i l
      → walk_fields structs parse sfs p i visited l ≡ ok l'
      → (n : ℕ) × P n l'
  unfolding walk_fields
  walk_fields-keeps [] i l l' step h e = (i, subst (P i) (ok_inj e) h)
  walk_fields-keeps (sf ∷ sfs) i l l' step h e =
      go
        (λ tag k.
          walk_fields-keeps sfs (suc i) (note_field sf tag p i visited l) l' step.1
            (step.0 tag i l h) k)
        (parse sf.keys) e
    where
      go :
          ((tag : FieldTag)
            → walk_fields structs parse sfs p (suc i) visited (note_field sf tag p i visited l)
              ≡ ok l'
            → (n : ℕ) × P n l')
          → (r : Result FieldTag)
          → (elim r as (λ x. Result Level) [
            | err e ↦ err (wrap "bqsink: field" e)
            | ok tag ↦
                walk_fields structs parse sfs p (suc i) visited (note_field sf tag p i visited l)
          ])
            ≡ ok l'
          → (n : ℕ) × P n l'
      go later (err e) k = cc
      go later (ok tag) k = later tag k

module _ (structs : Structs) (parse : (String → Option String) → Result FieldTag) (visited : List ℕ)
    (p : Parent) (ps : List Parent) (l l' : Level) where
  -- The walk over one struct, then over the rest of the level.
  pub walk_level-first :
      walk_level structs parse (p ∷ ps) visited l ≡ ok l'
      → (m : Level) × (walk_fields structs parse (structs p.struct) p 0 visited l ≡ ok m)
        × (walk_level structs parse ps visited m ≡ ok l')
  unfolding walk_level
  walk_level-first e = go (walk_fields structs parse (structs p.struct) p 0 visited l) refl e
    where
      go :
          (r : Result Level)
          → walk_fields structs parse (structs p.struct) p 0 visited l ≡ r
          → (elim r as (λ x. Result Level) [
            | err e ↦ err e
            | ok m ↦ walk_level structs parse ps visited m
          ])
            ≡ ok l'
          → (m : Level) × (walk_fields structs parse (structs p.struct) p 0 visited l ≡ ok m)
            × (walk_level structs parse ps visited m ≡ ok l')
      go (err e) q k = cc
      go (ok m) q k = (m, q, k)
