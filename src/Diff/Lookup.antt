-- ===== src/Diff/Lookup.antt =====
-- The map that DiffSchema and sameNestedSchema build finds a schema's last column of a name.
use bqsink.Common.{
  String, ◌≡◌, refl, true, false, Option, none, some, [], ◌∷◌, ◌++◌, arith, str_eq, if◌then◌else◌,
  contains, eq_iff, Bool-cases, inl, inr,
}
use bqsink.Common.Assoc.{Assoc, insert, lookup}
use bqsink.Column.{FieldSchema, Schema, names_of}
use bqsink.Diff.{by_name}

abbrev pub or_else : Option FieldSchema → Option FieldSchema → Option FieldSchema
or_else none o = o
or_else (some f) o = some f

-- The last column of the schema with this name.
unfoldable pub last_named : String → Schema → Option FieldSchema
last_named n [] = none
last_named n (f ∷ fs) = or_else (last_named n fs) (if str_eq f.name n then some f else none)

pub lookup-by_name :
    (n : String) (m : Assoc FieldSchema) (fs : Schema)
    → lookup n (by_name m fs) ≡ or_else (last_named n fs) (lookup n m)
unfolding by_name last_named
lookup-by_name n m [] = refl
lookup-by_name n m (f ∷ fs) = ground (arith, lookup-by_name n (insert f.name f m) fs)

pub lookup-by_name_nil : (n : String) (fs : Schema) → lookup n (by_name [] fs) ≡ last_named n fs
lookup-by_name_nil n fs = ground (arith, lookup-by_name n [] fs)

pub last_named-append :
    (n : String) (xs ys : Schema)
    → last_named n (xs ++ ys) ≡ or_else (last_named n ys) (last_named n xs)
unfolding last_named
last_named-append n [] ys = ground arith
last_named-append n (x ∷ xs) ys = ground (arith, last_named-append n xs ys)

pub last_named-name :
    (n : String) (fs : Schema) {g : FieldSchema} → last_named n fs ≡ some g → g.name ≡ n
unfolding last_named
last_named-name n [] h = ground arith
last_named-name n (f ∷ fs) {g} h = ground (arith, last_named-name n fs {g = g}, eq_iff f.name n)

-- A name has no last column exactly when no column has it.
pub last_named_absent :
    (n : String) (fs : Schema) → contains n (names_of fs) ≡ false → last_named n fs ≡ none
unfolding last_named
last_named_absent n [] h = refl
last_named_absent n (f ∷ fs) h =
    ground (arith, last_named_absent n fs, eq_iff f.name n, eq_iff n f.name)

pub last_named_present :
    (n : String) (fs : Schema)
    → contains n (names_of fs) ≡ true
    → (g : FieldSchema) × (last_named n fs ≡ some g)
unfolding last_named
last_named_present n [] h = ground arith
last_named_present n (f ∷ fs) h = elim (Bool-cases (contains n (names_of fs))) [
  | inl later ↦ let (g, e) = last_named_present n fs later in (g, rw e)
  | inr gone ↦ (f, ground (arith, last_named_absent n fs gone, eq_iff f.name n, eq_iff n f.name))
]
