-- ===== src/Diff/Classes.antt =====
-- What DiffSchema's first loop records of each declared column.
use bqsink.Common.{
  String, ◌≡◌, refl, true, false, not, ◌&&◌, Option, none, some, List, [], ◌∷◌, arith, str_eq,
  contains, Distinct, All, All-map, eq_iff, eq_refl,
}
use bqsink.Common.Assoc.{Assoc, lookup}
use bqsink.Column.{FieldSchema, Schema, names_of}
use bqsink.Diff.{
  SchemaDiff, conflict_between, note_column, diff_declared, undeclared, by_name, diff_schema,
}
use bqsink.Diff.Lookup.{last_named, last_named_absent}

-- A column that the table lacks stands among the added ones. One that it has is in no conflict, is not
-- added, and is relaxed exactly if the table alone requires it.
abbrev pub Noted : SchemaDiff → FieldSchema → Option FieldSchema → Type 0
Noted d w none = last_named w.name d.added ≡ some w
Noted d w (some g) =
    (conflict_between w g ≡ none)
    × (contains w.name d.relaxed ≡ (not w.required && g.required))
    × (last_named w.name d.added ≡ none)

pub All-ne :
    (n : String) (ws : Schema)
    → contains n (names_of ws) ≡ false
    → All (λ w. str_eq n w.name ≡ false) ws
All-ne n [] h = tt
All-ne n (w ∷ ws) h = (ground arith, All-ne n ws (ground arith))

-- The loop mentions only names of the declaration.
within_names :
    (m : Assoc FieldSchema) (n : String) (ws : Schema)
    → contains n (names_of ws) ≡ false
    → (contains n (names_of (diff_declared m ws).added) ≡ false)
      × (contains n (diff_declared m ws).relaxed ≡ false)
unfolding diff_declared
within_names m n [] h = (refl, refl)
within_names m n (w ∷ ws) h = go (lookup w.name m) (within_names m n ws (ground arith))
  where
    go :
        (o : Option FieldSchema)
        → (contains n (names_of (diff_declared m ws).added) ≡ false)
          × (contains n (diff_declared m ws).relaxed ≡ false)
        → (contains n (names_of (note_column w o (diff_declared m ws)).added) ≡ false)
          × (contains n (note_column w o (diff_declared m ws)).relaxed ≡ false)
    go none p = ground arith
    go (some g) p = ground arith

conflicts_tail :
    (w : FieldSchema) (o : Option FieldSchema) (d : SchemaDiff)
    → (note_column w o d).conflicts ≡ []
    → d.conflicts ≡ []
conflicts_tail w none d h = h
conflicts_tail w (some g) d h = ground arith

-- Recording one column leaves what was recorded of another.
Noted-other :
    (w v : FieldSchema) (o p : Option FieldSchema) (d : SchemaDiff)
    → str_eq w.name v.name ≡ false
    → Noted d v p
    → Noted (note_column w o d) v p
unfolding last_named
Noted-other w v none none d ne h = ground arith
Noted-other w v (some g) none d ne h = ground arith
Noted-other w v none (some k) d ne h = ground (arith, eq_iff w.name v.name)
Noted-other w v (some g) (some k) d ne h =
    ground (arith, eq_iff w.name v.name, eq_iff v.name w.name)

Noted-self :
    (w : FieldSchema) (o : Option FieldSchema) (d : SchemaDiff)
    → (contains w.name (names_of d.added) ≡ false) × (contains w.name d.relaxed ≡ false)
    → (note_column w o d).conflicts ≡ []
    → Noted (note_column w o d) w o
unfolding last_named
Noted-self w none d p h = ground (arith, last_named_absent w.name d.added p.0, eq_refl w.name)
Noted-self w (some g) d p h = ground (arith, last_named_absent w.name d.added p.0, eq_refl w.name)

pub diff_declared-Noted :
    (m : Assoc FieldSchema) (ws : Schema)
    → Distinct (names_of ws)
    → (diff_declared m ws).conflicts ≡ []
    → All (λ w. Noted (diff_declared m ws) w (lookup w.name m)) ws
unfolding diff_declared
diff_declared-Noted m [] u h = tt
diff_declared-Noted m (w ∷ ws) u h =
    let d = diff_declared m ws in
    let o = lookup w.name m in
    (
      Noted-self w o d (within_names m w.name ws u.0) h,
      zip ws (All-ne w.name ws u.0) (diff_declared-Noted m ws u.1 (conflicts_tail w o d h)),
    )
  where
    zip :
        (vs : Schema)
        → All (λ v. str_eq w.name v.name ≡ false) vs
        → All (λ v. Noted (diff_declared m ws) v (lookup v.name m)) vs
        → All
            (λ v. Noted (note_column w (lookup w.name m) (diff_declared m ws)) v (lookup v.name m))
            vs
    zip [] a b = tt
    zip (v ∷ vs) a b = (
      Noted-other w v (lookup w.name m) (lookup v.name m) (diff_declared m ws) a.0 b.0,
      zip vs a.1 b.1,
    )

-- Each column's own name stands among the names.
pub names_declared : (fs : Schema) → All (λ f. contains f.name (names_of fs) ≡ true) fs
names_declared [] = tt
names_declared (f ∷ fs) =
    (ground (arith, eq_refl f.name), All-map (λ g e. ground (arith, e)) fs (names_declared fs))

undeclared-diff_declared :
    (declared : List String) (m : Assoc FieldSchema) (ws : Schema)
    → All (λ w. contains w.name declared ≡ true) ws
    → undeclared declared (diff_declared m ws).added ≡ []
unfolding undeclared diff_declared
undeclared-diff_declared declared m [] h = refl
undeclared-diff_declared declared m (w ∷ ws) h =
    go (lookup w.name m) (undeclared-diff_declared declared m ws h.1)
  where
    go :
        (o : Option FieldSchema)
        → undeclared declared (diff_declared m ws).added ≡ []
        → undeclared declared (note_column w o (diff_declared m ws)).added ≡ []
    go none e = ground (arith, h.0)
    go (some g) e = ground arith

-- Every added column is a declared one.
pub undeclared-added :
    (want got : Schema) → undeclared (names_of want) (diff_schema want got).added ≡ []
unfolding diff_schema
undeclared-added want got =
    undeclared-diff_declared (names_of want) (by_name [] got) want (names_declared want)
