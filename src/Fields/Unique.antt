-- ===== src/Fields/Unique.antt =====
-- The fields that collectFields returns: no two of one index, so no two of one name.
use bqsink.Common.{
  ℕ, suc, ◌≤◌, String, ◌≡◌, ◌≢◌, refl, ap, sym, subst, inl, inr, ◌↔◌, ◌||◌, Option, none, some,
  List, [], ◌∷◌, ◌++◌, length, length-append, All, All-append, All-map, All-always, Bool-cases,
  arith,
}
use bqsink.Fault.{Result, ok, err, ok_inj}
use bqsink.Tags.{FieldTag}
use bqsink.GoTypes.{StructField, Structs}
use bqsink.Fields.{
  Candidate, Parent, Level, has, found_at, queued_at, note_field, walk_level, search, resolved,
  collect_fields,
}
use bqsink.Fields.Walking.{note_field-keeps, walk_fields-keeps, walk_level-first}
use bqsink.Fields.Members.{IsApart, Member}
use bqsink.Fields.Indices.{
  Indices, Apart, indices, places, indices-append, places-append, IsFree, IsTidy, IsTidy-skip,
  IsTidy-add, IsTidy-next,
}
use bqsink.Fields.Ordered.{IsOrdered}
use bqsink.Fields.Dominant.{Wins, resolve_collisions-Dominant}

some_inj : {A : Type 0} {a b : A} → some a ≡ some b → a ≡ b
some_inj {a} h = cc

record IsNeat (d : ℕ) (p : List ℕ) (i : ℕ) (ps : Indices) (l : Level) : Type 0 where
  found : IsTidy d p i ps (indices l.found)
  queue : IsTidy d p i ps (places l.queue)
  deep : All (λ q. length q ≡ suc d) (places l.queue)

-- What the next level starts from.
record IsReady (d : ℕ) (l : Level) : Type 0 where
  found : Apart (indices l.found)
  short : All (λ x. length x ≤ suc d) (indices l.found)
  queue : Apart (places l.queue)
  deep : All (λ q. length q ≡ suc d) (places l.queue)

module _ (structs : Structs) (parse : (String → Option String) → Result FieldTag) (visited : List ℕ)
    (d : ℕ) where
  note_field-IsNeat :
      (p : Parent) (ps : Indices)
      → length p.index ≡ d
      → All (λ q. q ≢ p.index) ps
      → (sf : StructField) (tag : FieldTag) (i : ℕ) (l : Level) → IsNeat d p.index i ps l
      → IsNeat d p.index (suc i) ps (note_field sf tag p i visited l)
  unfolding found_at queued_at
  note_field-IsNeat p ps len other sf tag i l h =
      note_field-keeps (IsNeat d p.index (suc i) ps) sf tag p i visited l same column
        (λ k e. below k)
    where
      same : IsNeat d p.index (suc i) ps l
      same = record {
        found = IsTidy-skip d p.index i ps (indices l.found) h.found;
        queue = IsTidy-skip d p.index i ps (places l.queue) h.queue;
        deep = h.deep;
      }

      column : IsNeat d p.index (suc i) ps (found_at sf tag p i l)
      column = record {
        found =
            subst (IsTidy d p.index (suc i) ps) (sym (indices-append l.found _))
              (IsTidy-add d p.index i ps (indices l.found) len other h.found);
        queue = IsTidy-skip d p.index i ps (places l.queue) h.queue;
        deep = h.deep;
      }

      deeper : ℕ → Parent
      deeper k = record { struct = k; index = p.index ++ i ∷ [] }

      below : (k : ℕ) → IsNeat d p.index (suc i) ps (queued_at k p i visited l)
      below k = elim (Bool-cases (has k visited || has k l.next)) [
        | inl old ↦ rw old same
        | inr new ↦ rw new (record {
          found = IsTidy-skip d p.index i ps (indices l.found) h.found;
          queue =
              subst (IsTidy d p.index (suc i) ps) (sym (places-append l.queue (deeper k)))
                (IsTidy-add d p.index i ps (places l.queue) len other h.queue);
          deep = subst (All (λ q. length q ≡ suc d)) (sym (places-append l.queue (deeper k))) (
              All-append (λ q. length q ≡ suc d) (places l.queue) ((p.index ++ i ∷ []) ∷ []) h.deep
                (omega (arith, len, length-append p.index (i ∷ [])), tt));
        })
      ]

  IsNeat-IsReady : (p : List ℕ) (i : ℕ) (ps : Indices) (l : Level) → IsNeat d p i ps l → IsReady d l
  IsNeat-IsReady p i ps l h = record {
    found = h.found.0;
    short = All-map (λ x (_, _, short). short) (indices l.found) h.found.1;
    queue = h.queue.0;
    deep = h.deep;
  }

  walk_first-IsNeat :
      (p : Parent) (ps : List Parent) (l l' : Level)
      → Apart (places (p ∷ ps))
      → length p.index ≡ d
      → IsNeat d p.index 0 (places ps) l
      → walk_level structs parse (p ∷ ps) visited l ≡ ok l'
      → (m : Level) × (n : ℕ) × IsNeat d p.index n (places ps) m
        × (walk_level structs parse ps visited m ≡ ok l')
  walk_first-IsNeat p ps l l' apart len h e =
      let (m, a, b) = walk_level-first structs parse visited p ps l l' e in
      let (n, s) =
        walk_fields-keeps (λ i l. IsNeat d p.index i (places ps) l) structs parse p visited
          (structs p.struct) 0 l m
          (All-always _ (structs p.struct) (note_field-IsNeat p (places ps) len apart.0)) h a in
      (m, n, s, b)

  walk_level-IsReady :
      (p : Parent) (ps : List Parent) (l l' : Level)
      → Apart (places (p ∷ ps))
      → All (λ q. length q ≡ d) (places (p ∷ ps))
      → IsNeat d p.index 0 (places ps) l
      → walk_level structs parse (p ∷ ps) visited l ≡ ok l'
      → IsReady d l'
  unfolding walk_level
  walk_level-IsReady p [] l l' apart len h e =
      let (m, n, s, b) = walk_first-IsNeat p [] l l' apart len.0 h e in
      subst (IsReady d) (ok_inj b) (IsNeat-IsReady p.index n [] m s)
  walk_level-IsReady p (q ∷ qs) l l' apart len h e =
      let (m, n, s, b) = walk_first-IsNeat p (q ∷ qs) l l' apart len.0 h e in
      walk_level-IsReady q qs m l' apart.1 len.1
        (record {
          found = IsTidy-next d p.index n q.index (places qs) (indices m.found) s.found;
          queue = IsTidy-next d p.index n q.index (places qs) (places m.queue) s.queue;
          deep = s.deep;
        })
        b

-- An index that is not longer than a struct's is none of a field in it.
short-IsFree : (d : ℕ) (x q : List ℕ) → length x ≤ d → length q ≡ d → IsFree x q 0
short-IsFree d x q short len j le e =
    absurd (omega (arith, short, len, ap length e, length-append q (j ∷ [])))

start-IsNeat :
    (d : ℕ) (found : List Candidate) (p : Parent) (ps : List Parent)
    → Apart (indices found)
    → All (λ x. length x ≤ d) (indices found)
    → All (λ q. length q ≡ d) (places (p ∷ ps))
    → IsNeat d p.index 0 (places ps) (record { found = found; next = []; queue = [] })
start-IsNeat d found p ps apart short len = record {
  found = (
    apart,
    All-map
        (λ x s. (
          short-IsFree d x p.index s len.0,
          All-map (λ q e. short-IsFree d x q s e) (places ps) len.1,
          omega (arith, s),
        ))
        (indices found) short,
  );
  queue = (tt, tt);
  deep = tt;
}

module _ (structs : Structs) (parse : (String → Option String) → Result FieldTag) where
  search-Apart :
      (fuel d : ℕ) (visited : List ℕ) (ps : List Parent) (found out : List Candidate)
      → Apart (indices found)
      → All (λ x. length x ≤ d) (indices found)
      → Apart (places ps)
      → All (λ q. length q ≡ d) (places ps)
      → search structs parse fuel visited ps found ≡ some (ok out)
      → Apart (indices out)
  unfolding search
  search-Apart fuel d visited [] found out apart short places_apart len e =
      subst (λ cs. Apart (indices cs)) (ok_inj (some_inj e)) apart
  search-Apart ℕ.zero d visited (p ∷ ps) found out apart short places_apart len e = cc
  search-Apart (suc fuel) d visited (p ∷ ps) found out apart short places_apart len e =
      go
        (λ l r.
          search-Apart fuel (suc d) (visited ++ l.next) l.queue l.found out r.found r.short r.queue
            r.deep)
        (walk_level structs parse (p ∷ ps) visited start) refl e
    where
      start : Level
      start = record { found = found; next = []; queue = [] }

      go :
          ((l : Level)
            → IsReady d l
            → search structs parse fuel (visited ++ l.next) l.queue l.found ≡ some (ok out)
            → Apart (indices out))
          → (r : Result Level) → walk_level structs parse (p ∷ ps) visited start ≡ r
          → (elim r as (λ x. Option (Result (List Candidate))) [
            | err e ↦ some (err e)
            | ok l ↦ search structs parse fuel (visited ++ l.next) l.queue l.found
          ])
            ≡ some (ok out)
          → Apart (indices out)
      go later (err x) q k = cc
      go later (ok l) q k =
          later l
            (walk_level-IsReady structs parse visited d p ps start l places_apart len
              (start-IsNeat d found p ps apart short len) q)
            k

Apart-IsApart : (cs : List Candidate) → Apart (indices cs) → IsApart cs
Apart-IsApart [] h = tt
Apart-IsApart (c ∷ cs) h = (each cs h.0, Apart-IsApart cs h.1)
  where
    each :
        (ds : List Candidate)
        → All (λ y. y ≢ c.index) (indices ds)
        → All (λ d. d.index ≢ c.index) ds
    each [] k = tt
    each (d ∷ ds) k = (k.0, each ds k.1)

-- The columns are those of the candidates that win their names, no two of one name, in order.
abbrev pub AreWinners : List Candidate → List Candidate → Type 0
AreWinners found cs =
    ((f : Candidate) → Member f cs ↔ (Member f found × Wins f found))
    × ((f g : Candidate) → Member f cs → Member g cs → f.name ≡ g.name → f ≡ g)
    × IsOrdered cs

-- When collectFields returns columns, they are, of the fields that its search found, exactly those
-- that hide every other one of their name, by being shallower or, at the same depth, by being tagged
-- where the other is not; no two have one name; and they come in the order of their indices.
pub collect_fields-Dominant :
    (structs : Structs) (parse : (String → Option String) → Result FieldTag) (fuel t : ℕ)
    (cs : List Candidate)
    → collect_fields structs parse fuel t ≡ some (ok cs)
    → (found : List Candidate) × (search structs parse fuel
          (t ∷ [])
          (record { struct = t; index = [] } ∷ [])
          []
        ≡ some (ok found))
      × AreWinners found cs
unfolding collect_fields
collect_fields-Dominant structs parse fuel t cs h =
    go (search structs parse fuel (t ∷ []) (record { struct = t; index = [] } ∷ []) []) refl h
  where
    go :
        (o : Option (Result (List Candidate)))
        → search structs parse fuel (t ∷ []) (record { struct = t; index = [] } ∷ []) [] ≡ o
        → resolved o ≡ some (ok cs)
        → (found : List Candidate) × (search structs parse fuel
              (t ∷ [])
              (record { struct = t; index = [] } ∷ [])
              []
            ≡ some (ok found))
          × AreWinners found cs
    go none e k = cc
    go (some (err x)) e k = cc
    go (some (ok found)) e k = (
      found,
      e,
      subst (AreWinners found) (ok_inj (some_inj k)) (
          resolve_collisions-Dominant found (
            Apart-IsApart found (
              search-Apart structs parse fuel 0 (t ∷ []) (record { struct = t; index = [] } ∷ []) []
                found tt tt (tt, tt) (refl, tt) e))),
    )
