-- ===== src/Fields/Terminates.antt =====
-- The search over embedded structs ends: with as many levels of fuel as there are struct types in
-- reach, and two more.
use bqsink.Common.{
  ℕ, suc, ◌+◌, ◌≤◌, ◌<◌, String, ◌≡◌, refl, ap, inl, inr, true, false, Option, some, List, [], ◌∷◌,
  ◌++◌, length, length-append, All, All-append, All-map, Bool-cases, arith, subst, ◌||◌,
  if◌then◌else◌,
}
use bqsink.Fault.{Result, ok, err, ok_inj}
use bqsink.Tags.{FieldTag}
use bqsink.GoTypes.{StructField, Structs, deref, struct_of}
use bqsink.Fields.Walking.{note_field-keeps, walk_fields-keeps, walk_level-first}
use bqsink.Fields.{
  Candidate, Parent, Level, has, found_at, queued_at, note_field, walk_level, search, resolved,
  resolve_collisions, collect_fields,
}

-- How many of the numbers are not in the list.
abbrev missing : List ℕ → List ℕ → ℕ
missing [] seen = 0
missing (n ∷ ns) seen = (if has n seen then 0 else 1) + missing ns seen

has-append : (n : ℕ) (xs ys : List ℕ) → has n xs ≡ true → has n (xs ++ ys) ≡ true
has-append n [] ys h = cc
has-append n (x ∷ xs) ys h = ground (arith, has-append n xs ys, h)

has-append_right : (n : ℕ) (xs ys : List ℕ) → has n ys ≡ true → has n (xs ++ ys) ≡ true
has-append_right n [] ys h = h
has-append_right n (x ∷ xs) ys h = ground (arith, has-append_right n xs ys, h)

missing-append : (ns xs ys : List ℕ) → missing ns (xs ++ ys) ≤ missing ns xs
missing-append [] xs ys = omega arith
missing-append (n ∷ ns) xs ys = ground (arith, has-append n xs ys, missing-append ns xs ys)

missing-bound : (ns seen : List ℕ) → missing ns seen ≤ length ns
missing-bound [] seen = omega arith
missing-bound (n ∷ ns) seen = ground (arith, missing-bound ns seen)

-- One number more that is in the list is one fewer that is missing.
missing-less :
    (ns xs ys : List ℕ) (k : ℕ)
    → has k ns ≡ true
    → has k xs ≡ false
    → has k ys ≡ true
    → missing ns (xs ++ ys) < missing ns xs
missing-less [] xs ys k h a b = ground arith
missing-less (n ∷ ns) xs ys k h a b = ground (
  arith,
  missing-less ns xs ys k,
  missing-append ns xs ys,
  has-append n xs ys,
  has-append_right k xs ys b,
)

-- The struct types in reach: with each of them, those that its fields embed or hold.
abbrev pub IsClosed : Structs → List ℕ → Type 0
IsClosed structs ids =
    (s : ℕ)
    → has s ids ≡ true
    → All (λ sf. (k : ℕ) → struct_of (deref sf.go_type) ≡ some k → has k ids ≡ true) (structs s)

module _ (ids visited : List ℕ) where
  record IsSound (l : Level) : Type 0 where
    next : All (λ k. (has k ids ≡ true) × (has k visited ≡ false)) l.next
    queue : All (λ p. has p.struct ids ≡ true) l.queue
    together : length l.queue ≡ length l.next

  found_at-IsSound :
      (sf : StructField) (tag : FieldTag) (p : Parent) (i : ℕ) (l : Level)
      → IsSound l
      → IsSound (found_at sf tag p i l)
  unfolding found_at
  found_at-IsSound sf tag p i l h = record { next = h.next; queue = h.queue; together = h.together }

  queued_at-IsSound :
      (k : ℕ) (p : Parent) (i : ℕ) (l : Level)
      → has k ids ≡ true
      → IsSound l
      → IsSound (queued_at k p i visited l)
  unfolding queued_at
  queued_at-IsSound k p i l e h = elim (Bool-cases (has k visited || has k l.next)) [
    | inl old ↦ rw old h
    | inr new ↦ rw new (record {
      next = All-append _ l.next (k ∷ []) h.next ((e, ground (arith, new)), tt);
      queue = All-append _ l.queue _ h.queue (e, tt);
      together = ground (
        arith,
        h.together,
        length-append l.queue (record { struct = k; index = p.index ++ i ∷ [] } ∷ []),
        length-append l.next (k ∷ []),
      );
    })
  ]

  abbrev Inside : StructField → Type 0
  Inside sf = (k : ℕ) → struct_of (deref sf.go_type) ≡ some k → has k ids ≡ true

  note_field-IsSound :
      (sf : StructField) (tag : FieldTag) (p : Parent) (i : ℕ) (l : Level)
      → Inside sf
      → IsSound l
      → IsSound (note_field sf tag p i visited l)
  note_field-IsSound sf tag p i l inside h =
      note_field-keeps IsSound sf tag p i visited l h (found_at-IsSound sf tag p i l h)
        (λ k e. queued_at-IsSound k p i l (inside k e) h)

  module _ (structs : Structs) (parse : (String → Option String) → Result FieldTag)
      (closed : IsClosed structs ids) where
    walk_level-IsSound :
        (ps : List Parent) (l : Level)
        → All (λ p. has p.struct ids ≡ true) ps
        → IsSound l
        → (l' : Level) → walk_level structs parse ps visited l ≡ ok l'
        → IsSound l'
    unfolding walk_level
    walk_level-IsSound [] l reach h l' e = subst IsSound (ok_inj e) h
    walk_level-IsSound (p ∷ ps) l reach h l' e =
        let (m, a, b) = walk_level-first structs parse visited p ps l l' e in
        let (n, s) =
          walk_fields-keeps (λ i l. IsSound l) structs parse p visited (structs p.struct) 0 l m
            (All-map (λ sf inside tag i l s. note_field-IsSound sf tag p i l inside s)
              (structs p.struct) (closed p.struct reach.0))
            h a in
        walk_level-IsSound ps m reach.1 s l' b

-- A queue that is not empty came with a number that was missing.
missing-shrinks :
    (ids visited : List ℕ) (l : Level) (q : Parent) (qs : List Parent)
    → IsSound ids visited l
    → l.queue ≡ q ∷ qs
    → missing ids (visited ++ l.next) < missing ids visited
missing-shrinks ids visited l q qs h e = go l.next h.next (ground (arith, e, h.together))
  where
    go :
        (next : List ℕ)
        → All (λ k. (has k ids ≡ true) × (has k visited ≡ false)) next
        → 0 < length next
        → missing ids (visited ++ next) < missing ids visited
    go [] h k = absurd (omega arith)
    go (n ∷ ns) h k = missing-less ids visited (n ∷ ns) n h.0.0 h.0.1 (ground arith)

module _ (structs : Structs) (parse : (String → Option String) → Result FieldTag) (ids : List ℕ)
    (closed : IsClosed structs ids) where
  Returns : Option (Result (List Candidate)) → Type 0
  Returns o = (r : Result (List Candidate)) × (o ≡ some r)

  search-Returns :
      (fuel : ℕ) (visited : List ℕ) (ps : List Parent) (found : List Candidate)
      → All (λ p. has p.struct ids ≡ true) ps
      → missing ids visited + 1 < fuel
      → Returns (search structs parse fuel visited ps found)
  unfolding search Returns
  search-Returns fuel visited [] found reach h = (ok found, refl)
  search-Returns ℕ.zero visited (p ∷ ps) found reach h = absurd (omega arith)
  search-Returns (suc fuel) visited (p ∷ ps) found reach h =
      go (λ v qs f r m. search-Returns fuel v qs f r m)
        (walk_level structs parse (p ∷ ps) visited start) refl
    where
      start : Level
      start = record { found = found; next = []; queue = [] }

      Deeper : Type 0
      Deeper =
          (v : List ℕ) (qs : List Parent) (f : List Candidate)
          → All (λ p. has p.struct ids ≡ true) qs
          → missing ids v + 1 < fuel
          → Returns (search structs parse fuel v qs f)

      deeper :
          Deeper
          → (l : Level) (queue : List Parent) → IsSound ids visited l
          → l.queue ≡ queue
          → All (λ p. has p.struct ids ≡ true) queue
          → Returns (search structs parse fuel (visited ++ l.next) queue l.found)
      deeper ih l [] s e r = (ok l.found, refl)
      deeper ih l (q ∷ qs) s e r =
          ih (visited ++ l.next) (q ∷ qs) l.found r
            (omega (arith, missing-shrinks ids visited l q qs s e))

      go :
          Deeper
          → (r : Result Level) → walk_level structs parse (p ∷ ps) visited start ≡ r
          → Returns (elim r as (λ x. Option (Result (List Candidate))) [
            | err e ↦ some (err e)
            | ok l ↦ search structs parse fuel (visited ++ l.next) l.queue l.found
          ])
      go ih (err e) q = (err e, refl)
      go ih (ok l) q =
          let s =
            walk_level-IsSound ids visited structs parse closed (p ∷ ps) start reach
              (record { next = tt; queue = tt; together = refl }) l q in
          deeper ih l l.queue s refl s.queue

  -- Where `ids` holds the struct type and, with each struct type in it, those that its fields are or
  -- point to, recursive types included, collectFields returns: it takes at most as many rounds as
  -- `ids` has numbers, and two more.
  pub collect_fields-ends :
      (t : ℕ)
      → has t ids ≡ true
      → (r : Result (List Candidate)) × (collect_fields structs parse (length ids + 2) t ≡ some r)
  unfolding collect_fields Returns
  collect_fields-ends t inside =
      let (r, e) =
        search-Returns (length ids + 2) (t ∷ []) (record { struct = t; index = [] } ∷ []) []
          (inside, tt) (omega (arith, missing-bound ids (t ∷ []))) in
      go r e
    where
      go :
          (r : Result (List Candidate))
          → search structs parse
              (length ids + 2)
              (t ∷ [])
              (record { struct = t; index = [] } ∷ [])
              []
            ≡ some r
          → Returns (collect_fields structs parse (length ids + 2) t)
      go (err x) e = (err x, ap resolved e)
      go (ok found) e = (ok (resolve_collisions found), ap resolved e)
