-- ===== src/Diff/Mentions.antt =====
-- `mentions` and Without split what a diff says between the columns that are left alone and the rest.
use bqsink.Common.{
  String, ◌≡◌, refl, ap, sym, ◌∙◌, Bool, false, not, ◌&&◌, ◌||◌, List, [], ◌∷◌, ◌++◌, arith,
  contains, contains-append, keep_if, Distinct, eq_iff,
}
use bqsink.Column.{Schema, names_of}
use bqsink.Diff.{
  SchemaConflict, SchemaDiff, conflict_names, conflicts_outside, without, all_names, visit,
  mentions,
}
use bqsink.Diff.Ignoring.{drop_named}

contains-visit :
    (x : String) (names out xs : List String)
    → contains x (visit names out xs) ≡ (contains x out || (contains x xs && contains x names))
unfolding visit
contains-visit x names out [] = ground arith
contains-visit x names out (y ∷ ys) = ground (
  arith,
  contains-visit x names out ys,
  contains-visit x names (out ++ y ∷ []) ys,
  contains-append x out (y ∷ []),
  eq_iff x y,
)

Distinct-concat :
    (xs : List String) (x : String) → Distinct xs → contains x xs ≡ false → Distinct (xs ++ x ∷ [])
Distinct-concat [] x u h = (refl, tt)
Distinct-concat (y ∷ ys) x u h = (
  ground (arith, contains-append y ys (x ∷ []), eq_iff x y, eq_iff y x),
  Distinct-concat ys x u.1 (ground arith),
)

Distinct-visit : (names out xs : List String) → Distinct out → Distinct (visit names out xs)
unfolding visit
Distinct-visit names out [] u = u
Distinct-visit names out (y ∷ ys) u = ground (
  arith,
  Distinct-visit names out ys u,
  Distinct-visit names (out ++ y ∷ []) ys,
  Distinct-concat out y u,
)

pub contains-mentions :
    (x : String) (d : SchemaDiff) (names : List String)
    → contains x (mentions d names) ≡ (contains x (all_names d) && contains x names)
unfolding mentions
contains-mentions x d [] = ground arith
contains-mentions x d (n ∷ ns) = contains-visit x (n ∷ ns) [] (all_names d)

module _ (x : String) (names : List String) where
  pub kept_names :
      (xs : List String)
      → contains x (keep_if (λ y. not (contains y names)) xs)
        ≡ (contains x xs && not (contains x names))
  kept_names [] = refl
  kept_names (y ∷ ys) = ground (arith, kept_names ys, eq_iff x y)

  pub kept_columns :
      (fs : Schema)
      → contains x (names_of (drop_named names fs))
        ≡ (contains x (names_of fs) && not (contains x names))
  kept_columns [] = refl
  kept_columns (f ∷ fs) = ground (arith, kept_columns fs, eq_iff x f.name)

  kept_conflicts :
      (cs : List SchemaConflict)
      → contains x (conflict_names (conflicts_outside names cs))
        ≡ (contains x (conflict_names cs) && not (contains x names))
  kept_conflicts [] = refl
  kept_conflicts (c ∷ cs) = ground (arith, kept_conflicts cs, eq_iff x c.name)

pub contains-all_names :
    (x : String) (d : SchemaDiff)
    → contains x (all_names d) ≡ (
        contains x (names_of d.added)
        || (contains x d.removed
            || (contains x d.relaxed || contains x (conflict_names d.conflicts))))
unfolding all_names
contains-all_names x d = ground (
  arith,
  contains-append x (names_of d.added) (d.removed ++ (d.relaxed ++ conflict_names d.conflicts)),
  contains-append x d.removed (d.relaxed ++ conflict_names d.conflicts),
  contains-append x d.relaxed (conflict_names d.conflicts),
)

-- The diff adds, removes or relaxes the column or finds a conflict on it.
abbrev pub is_named : String → SchemaDiff → Bool
is_named x d =
    contains x (names_of d.added)
    || (contains x d.removed || (contains x d.relaxed || contains x (conflict_names d.conflicts)))

named-mentions :
    (x : String) (d : SchemaDiff) (names : List String)
    → contains x (mentions d names) ≡ (is_named x d && contains x names)
named-mentions x d names =
    contains-mentions x d names ∙ ap (λ b. b && contains x names) (contains-all_names x d)

pub contains-without :
    (x : String) (d : SchemaDiff) (names : List String)
    → contains x (all_names (without d names))
      ≡ (contains x (all_names d) && not (contains x names))
unfolding without
contains-without x d [] = ground arith
contains-without x d (n ∷ ns) = ground (
  arith,
  contains-all_names x d,
  contains-all_names x (without d (n ∷ ns)),
  kept_columns x (n ∷ ns) d.added,
  kept_names x (n ∷ ns) d.removed,
  kept_names x (n ∷ ns) d.relaxed,
  kept_conflicts x (n ∷ ns) d.conflicts,
)

named-without :
    (x : String) (d : SchemaDiff) (names : List String)
    → is_named x (without d names) ≡ (is_named x d && not (contains x names))
named-without x d names =
    sym (contains-all_names x (without d names))
    ∙ contains-without x d names
    ∙ ap (λ b. b && not (contains x names)) (contains-all_names x d)

-- For any list of columns to leave alone: `mentions` lists, each once, exactly those of them that the
-- diff adds, removes, relaxes or finds in conflict, and Without leaves exactly the other names that it
-- adds, removes, relaxes or finds in conflict.
pub mentions-without :
    (d : SchemaDiff) (names : List String)
    → Distinct (mentions d names)
      × ((x : String) → contains x (mentions d names) ≡ (is_named x d && contains x names))
      × ((x : String) → is_named x (without d names) ≡ (is_named x d && not (contains x names)))
unfolding mentions
mentions-without d [] = (tt, λ x. named-mentions x d [], λ x. named-without x d [])
mentions-without d (n ∷ ns) = (
  Distinct-visit (n ∷ ns) [] (all_names d) tt,
  λ x. named-mentions x d (n ∷ ns),
  λ x. named-without x d (n ∷ ns),
)
