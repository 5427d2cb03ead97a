-- ===== src/Merge/Names.antt =====
-- What mergeSchema keeps of the table's columns: their names, their order and all but the mode.
use bqsink.Common.{
  String, ◌≡◌, refl, ap, true, false, Option, none, some, List, [], ◌∷◌, ◌++◌, arith, contains,
  eq_iff, eq_refl, ◌||◌, All, All-map, Bool-cases, inl, inr,
}
use bqsink.Column.{FieldSchema, Schema, names_of}
use bqsink.Diff.{undeclared}
use bqsink.Diff.Lookup.{last_named}
use bqsink.Diff.Ignoring.{drop_named}
use bqsink.Merge.{relax_column, relax_all}

abbrev pub relaxed_option : List String → Option FieldSchema → Option FieldSchema
relaxed_option relax none = none
relaxed_option relax (some g) = some (relax_column relax g)

pub name-relax_column :
    (relax : List String) (f : FieldSchema) → (relax_column relax f).name ≡ f.name
unfolding relax_column
name-relax_column relax f = ground arith

pub last_named-relax_all :
    (n : String) (relax : List String) (fs : Schema)
    → last_named n (relax_all relax fs) ≡ relaxed_option relax (last_named n fs)
unfolding last_named relax_all
last_named-relax_all n relax [] = refl
last_named-relax_all n relax (f ∷ fs) = ground (arith, last_named-relax_all n relax fs)

pub names_of-relax_all :
    (relax : List String) (fs : Schema) → names_of (relax_all relax fs) ≡ names_of fs
unfolding relax_all
names_of-relax_all relax [] = refl
names_of-relax_all relax (f ∷ fs) = ground (arith, names_of-relax_all relax fs)

pub names_of-append : (xs ys : Schema) → names_of (xs ++ ys) ≡ names_of xs ++ names_of ys
names_of-append [] ys = refl
names_of-append (x ∷ xs) ys = ap (λ l. x.name ∷ l) (names_of-append xs ys)

-- `undeclared` reads names alone.
pub undeclared-names :
    (declared : List String) (fs gs : Schema)
    → names_of fs ≡ names_of gs
    → undeclared declared fs ≡ undeclared declared gs
unfolding undeclared
undeclared-names declared [] [] e = refl
undeclared-names declared [] (g ∷ gs) e = cc
undeclared-names declared (f ∷ fs) [] e = cc
undeclared-names declared (f ∷ fs) (g ∷ gs) e = ground (arith, undeclared-names declared fs gs)

pub undeclared-append :
    (declared : List String) (fs gs : Schema)
    → undeclared declared (fs ++ gs) ≡ undeclared declared fs ++ undeclared declared gs
unfolding undeclared
undeclared-append declared [] gs = refl
undeclared-append declared (f ∷ fs) gs = ground (arith, undeclared-append declared fs gs)

pub not-undeclared :
    (declared : List String) (n : String) (fs : Schema)
    → contains n declared ≡ true
    → contains n (undeclared declared fs) ≡ false
unfolding undeclared
not-undeclared declared n [] h = refl
not-undeclared declared n (f ∷ fs) h =
    ground (arith, not-undeclared declared n fs h, eq_iff n f.name)

settled_names :
    (declared : List String) (fs : Schema)
    → All (λ f. (contains f.name declared || contains f.name (undeclared declared fs)) ≡ true) fs
unfolding undeclared
settled_names declared [] = tt
settled_names declared (f ∷ fs) = (
  ground (arith, eq_refl f.name),
  All-map (λ g e. ground (arith, e)) fs (settled_names declared fs),
)

drop-All :
    (declared names : List String) (fs : Schema)
    → All (λ f. (contains f.name declared || contains f.name names) ≡ true) fs
    → All (λ f. contains f.name declared ≡ true) (drop_named names fs)
drop-All declared names [] h = tt
drop-All declared names (f ∷ fs) h = elim (Bool-cases (contains f.name names)) [
  | inl gone ↦ rw gone (drop-All declared names fs h.1)
  | inr kept ↦ rw kept (ground arith, drop-All declared names fs h.1)
]

-- Once the undeclared columns are dropped, every column left is declared.
pub drop_undeclared :
    (declared : List String) (fs : Schema)
    → All (λ f. contains f.name declared ≡ true) (drop_named (undeclared declared fs) fs)
drop_undeclared declared fs =
    drop-All declared (undeclared declared fs) fs (settled_names declared fs)
