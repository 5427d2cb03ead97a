-- ===== src/Layout/Sound.antt =====
-- What an accepted layout says of the columns.
use bqsink.Common.{
  ℕ, zero, suc, ◌+◌, String, ◌≡◌, ◌≢◌, ◌⊎◌, inl, inr, refl, ap, sym, ◌∙◌, subst, Bool, true, false,
  ◌&&◌, Option, none, some, List, [], ◌∷◌, ◌==◌, is_empty, length, arith, Bool-cases, All,
}
use bqsink.Fault.{bind-ok, message, Result, ok, err}
use bqsink.Column.{
  FieldType, timestamp_type, date_type, datetime_type, float_type, json_type, bytes_type,
  record_type,
}
use bqsink.Metadata.{PartitioningType, hour_partitioning, TimePartitioning}
use bqsink.Declare.{FieldPlan}
use bqsink.Layout.{
  Tagged, partitionable, unclusterable, hourly, is_date, check_partition_column,
  check_cluster_column, Collected, at_position, note_partition, note_cluster, collect, in_order,
  Layout, finish, resolve_layout,
}

-- Some column of the list is as `P` says.
abbrev pub Some : {A : Type 0} → (A → Type 0) → List A → Type 0
Some P [] = ⊥
Some P (x ∷ xs) = P x ⊎ Some P xs

-- A column that carries the partitioning `p` and may do so.
pub record Partitions (p : TimePartitioning) (required : Bool) (c : Tagged) : Type 0 where
  pub named : p.field ≡ c.field.name
  pub tagged : c.tag.partition ≡ some p.granularity
  pub filter : c.tag.require_filter ≡ required
  pub typed :
      (c.field.field_type ≡ timestamp_type)
      ⊎ ((c.field.field_type ≡ date_type) ⊎ (c.field.field_type ≡ datetime_type))
  pub single : c.field.repeated ≡ false
  pub hours : c.field.field_type ≡ date_type → p.granularity ≢ hour_partitioning

-- A column that is tagged with the position of the name, and its type and mode.
pub record Clusters (e : ℕ × String) (c : Tagged) : Type 0 where
  pub named : e.1 ≡ c.field.name
  pub tagged : e.0 ≡ c.tag.cluster
  pub not_float : c.field.field_type ≢ float_type
  pub not_json : c.field.field_type ≢ json_type
  pub not_bytes : c.field.field_type ≢ bytes_type
  pub not_record : c.field.field_type ≢ record_type
  pub single : c.field.repeated ≡ false

partitionable-type :
    (t : FieldType)
    → partitionable t ≡ true
    → (t ≡ timestamp_type) ⊎ ((t ≡ date_type) ⊎ (t ≡ datetime_type))
unfolding partitionable
partitionable-type timestamp_type h = inl refl
partitionable-type date_type h = inr (inl refl)
partitionable-type datetime_type h = inr (inr refl)
partitionable-type _ h = cc

-- No DATE by the hour.
by_the_hour :
    (g : PartitioningType) (t : FieldType)
    → (hourly g && is_date t) ≡ false
    → g ≡ hour_partitioning
    → t ≡ date_type
    → ⊥
by_the_hour g t h e f =
    let clash : (hourly hour_partitioning && is_date date_type) ≡ false =
      subst (λ x. (hourly x && is_date date_type) ≡ false) e
        (subst (λ x. (hourly g && is_date x) ≡ false) f h) in
    cc

not_unclusterable : (t u : FieldType) → unclusterable t ≡ false → unclusterable u ≡ true → t ≢ u
not_unclusterable t u h k e = let clash : true ≡ false = sym k ∙ ap unclusterable (sym e) ∙ h in cc

cluster_columns :
    (c : Tagged)
    → unclusterable c.field.field_type ≡ false
    → c.field.repeated ≡ false
    → Clusters (c.tag.cluster, c.field.name) c
unfolding unclusterable
cluster_columns c typed single = record {
  named = refl;
  tagged = refl;
  not_float = not_unclusterable c.field.field_type float_type typed refl;
  not_json = not_unclusterable c.field.field_type json_type typed refl;
  not_bytes = not_unclusterable c.field.field_type bytes_type typed refl;
  not_record = not_unclusterable c.field.field_type record_type typed refl;
  single = single;
}

check_partition_column-ok :
    (f : FieldPlan) (g : PartitioningType)
    → check_partition_column f g ≡ ok tt
    → (partitionable f.field_type ≡ true)
      × (f.repeated ≡ false)
      × ((hourly g && is_date f.field_type) ≡ false)
unfolding check_partition_column
check_partition_column-ok f g h = ground (arith, h)

check_cluster_column-ok :
    (f : FieldPlan)
    → check_cluster_column f ≡ ok tt
    → (unclusterable f.field_type ≡ false) × (f.repeated ≡ false)
unfolding check_cluster_column
check_cluster_column-ok f h = ground (arith, h)

-- Some column is tagged with the partitioning that was collected.
HasPartition : List Tagged → Collected → Type 0
HasPartition cs l =
    (p : TimePartitioning) → l.partitioning ≡ some p → Some (Partitions p l.require_filter) cs

-- Each position that was collected is that of a column.
HasPositions : List Tagged → Collected → Type 0
HasPositions cs l = All (λ e. Some (Clusters e) cs) l.by_position

note_partition-ok :
    (c : Tagged) (l m : Collected)
    → note_partition c l ≡ ok m
    → (m.by_position ≡ l.by_position)
      × ((c.tag.partition ≡ none) → m ≡ l)
      × ((g : PartitioningType)
          → c.tag.partition ≡ some g
          → (l.partitioning ≡ none)
            × (m.partitioning ≡ some (record { field = c.field.name; granularity = g }))
            × (m.require_filter ≡ c.tag.require_filter)
            × (check_partition_column c.field g ≡ ok tt))
unfolding note_partition
note_partition-ok c l m h = ground (arith, h)

note_cluster-ok :
    (c : Tagged) (l m : Collected)
    → note_cluster c l ≡ ok m
    → (m.partitioning ≡ l.partitioning)
      × (m.require_filter ≡ l.require_filter)
      × ((m.by_position ≡ l.by_position)
          ⊎ ((m.by_position ≡ (c.tag.cluster, c.field.name) ∷ l.by_position)
              × (check_cluster_column c.field ≡ ok tt)))
unfolding note_cluster
note_cluster-ok c l m h = ground (arith, h)

at_position-Some :
    (cs : List Tagged) (p : ℕ) (x : String) (names : List (ℕ × String))
    → All (λ e. Some (Clusters e) cs) names
    → at_position p names ≡ some x
    → Some (Clusters (p, x)) cs
unfolding at_position
at_position-Some cs p x [] h e = cc
at_position-Some cs p x ((q, n) ∷ names) h e = elim (Bool-cases (p == q)) [
  | inl same ↦
      let here : some n ≡ some x = rw same at e in
      let a : p ≡ q = ground arith in let b : n ≡ x = ground (arith, here) in rw (a, ← b) h.0
  | inr other ↦ at_position-Some cs p x names h.1 (rw other at e)
]

-- The names stand, in order, at the positions from `p` on.
abbrev pub Ordered : List Tagged → ℕ → List String → Type 0
Ordered cs p [] = Unit
Ordered cs p (x ∷ xs) = Some (Clusters (p, x)) cs × Ordered cs (p + 1) xs

in_order-Ordered :
    (cs : List Tagged) (n p : ℕ) (found : List (ℕ × String)) (names : List String)
    → All (λ e. Some (Clusters e) cs) found
    → in_order n p found ≡ ok names
    → Ordered cs p names × (length names ≡ n)
unfolding in_order
in_order-Ordered cs zero p found [] h e = (tt, refl)
in_order-Ordered cs zero p found (x ∷ xs) h e = absurd (ground (arith, e))
in_order-Ordered cs (suc n) p found names h e =
    go (at_position p found) refl (in_order n (p + 1) found) refl
      (λ xs q. in_order-Ordered cs n (p + 1) found xs h q) e
  where
    go :
        (o : Option String)
        → at_position p found ≡ o
        → (r : Result (List String)) → in_order n (p + 1) found ≡ r
        → ((xs : List String)
            → in_order n (p + 1) found ≡ ok xs
            → Ordered cs (p + 1) xs × (length xs ≡ n))
        → (elim o as (λ x. Result (List String)) [
          | none ↦ err (message "a cluster position is missing")
          | some name ↦ elim r as (λ x. Result (List String)) [
            | ok rest ↦ ok (name ∷ rest)
            | err e ↦ err e
          ]
        ])
          ≡ ok names
        → Ordered cs p names × (length names ≡ suc n)
    go none q r s ih k = cc
    go (some x) q (err y) s ih k = cc
    go (some x) q (ok xs) s ih k =
        let (o, l) = ih xs s in
        let same : x ∷ xs ≡ names = ground (arith, k) in
        subst (λ ys. Ordered cs p ys × (length ys ≡ suc n)) same
          ((at_position-Some cs p x found h q, o), ap suc l)

partition_made :
    (c : Tagged) (g : PartitioningType) (m : Collected) (p : TimePartitioning)
    → c.tag.partition ≡ some g
    → m.partitioning ≡ some (record { field = c.field.name; granularity = g })
    → m.require_filter ≡ c.tag.require_filter
    → check_partition_column c.field g ≡ ok tt
    → m.partitioning ≡ some p
    → Partitions p m.require_filter c
partition_made c g m p t made filter fine q =
    let (typed, single, hours) = check_partition_column-ok c.field g fine in
    let same : some (record { field = c.field.name; granularity = g }) ≡ some p = sym made ∙ q in
    let name : c.field.name ≡ p.field = ground (arith, same) in
    let gran : g ≡ p.granularity = ground (arith, same) in
    record {
      named = sym name;
      tagged = t ∙ ap some gran;
      filter = sym filter;
      typed = partitionable-type c.field.field_type typed;
      single = single;
      hours = λ day hour. by_the_hour g c.field.field_type hours (gran ∙ hour) day;
    }

noted-HasPartition :
    (cs : List Tagged) (c : Tagged) (l m : Collected)
    → ((P : Tagged → Type 0) → P c → Some P cs)
    → HasPartition cs l
    → note_partition c l ≡ ok m
    → HasPartition cs m
unfolding HasPartition
noted-HasPartition cs c l m incl h e p q = go c.tag.partition refl
  where
    go :
        (o : Option PartitioningType)
        → c.tag.partition ≡ o
        → Some (Partitions p m.require_filter) cs
    go none t =
        let same = (note_partition-ok c l m e).1 t in
        subst (λ x. Some (Partitions p x.require_filter) cs) (sym same)
          (h p (ap (λ x. x.partitioning) (sym same) ∙ q))
    go (some g) t =
        let (before, made, filter, fine) = (note_partition-ok c l m e).2 g t in
        incl (Partitions p m.require_filter) (partition_made c g m p t made filter fine q)

noted-HasPositions :
    (cs : List Tagged) (c : Tagged) (l m : Collected)
    → ((P : Tagged → Type 0) → P c → Some P cs)
    → HasPositions cs l
    → note_cluster c l ≡ ok m
    → HasPositions cs m
unfolding HasPositions
noted-HasPositions cs c l m incl h e = elim (note_cluster-ok c l m e).2 [
  | inl same ↦ subst (All (λ e. Some (Clusters e) cs)) (sym same) h
  | inr (more, fine) ↦
      let (typed, single) = check_cluster_column-ok c.field fine in
      subst (All (λ e. Some (Clusters e) cs)) (sym more)
        (incl (Clusters (c.tag.cluster, c.field.name)) (cluster_columns c typed single), h)
]

collect-Has :
    (all cs : List Tagged) (l m : Collected)
    → ((P : Tagged → Type 0) → Some P cs → Some P all)
    → HasPartition all l
    → HasPositions all l
    → collect cs l ≡ ok m
    → HasPartition all m × HasPositions all m
unfolding collect HasPartition HasPositions
collect-Has all [] l m incl h k e =
    let same : l ≡ m = ground (arith, e) in
    (subst (HasPartition all) same h, subst (HasPositions all) same k)
collect-Has all (c ∷ cs) l m incl h k e =
    let (x, first, rest) = bind-ok (note_partition c l) _ e in
    let (y, second, last) = bind-ok (note_cluster c x) _ rest in
    let here : (P : Tagged → Type 0) → P c → Some P all = λ P p. incl P (inl p) in
    let h1 = noted-HasPartition all c l x here h first in
    let k1 = subst (All (λ e. Some (Clusters e) all)) (sym (note_partition-ok c l x first).0) k in
    let k2 = noted-HasPositions all c x y here k1 second in
    let (t, f, _) = note_cluster-ok c x y second in
    let h2 : HasPartition all y =
      λ p q. subst (λ b. Some (Partitions p b) all) (sym f) (h1 p (sym t ∙ q)) in
    collect-Has all cs y m (λ P p. incl P (inr p)) h2 k2 last

finish-Sound :
    (cs : List Tagged) (l : Collected) (r : Layout)
    → HasPositions cs l
    → finish l ≡ ok r
    → (r.partitioning ≡ l.partitioning)
      × (r.require_filter ≡ l.require_filter)
      × ((names : List String) → r.clustering ≡ some names → Ordered cs 1 names)
unfolding HasPositions
finish-Sound cs l r h e = elim (Bool-cases (is_empty l.by_position)) [
  | inl bare ↦
      let e' = rw bare at e in
      (ground (arith, e'), ground (arith, e'), λ names q. absurd (ground (arith, e', q)))
  | inr some_there ↦ go (in_order (length l.by_position) 1 l.by_position) refl (rw some_there at e)
]
  where
    go :
        (o : Result (List String))
        → in_order (length l.by_position) 1 l.by_position ≡ o
        → (elim o as (λ x. Result Layout) [
          | err e ↦ err e
          | ok fields ↦ ok (record {
            partitioning = l.partitioning;
            require_filter = l.require_filter;
            clustering = some fields;
          })
        ])
          ≡ ok r
        → (r.partitioning ≡ l.partitioning)
          × (r.require_filter ≡ l.require_filter)
          × ((names : List String) → r.clustering ≡ some names → Ordered cs 1 names)
    go (err x) q k = cc
    go (ok fields) q k = (
      ground (arith, k),
      ground (arith, k),
      λ names t.
          let same : fields ≡ names = ground (arith, k, t) in
          subst (Ordered cs 1) same
            ((in_order-Ordered cs (length l.by_position) 1 l.by_position fields h q).0),
    )

-- An accepted layout comes from the columns. Its partitioning is that of a column which carries the
-- partition tag with that granularity and that requirement of a filter, is TIMESTAMP, DATE or
-- DATETIME, not repeated, and not a DATE by the hour. The i-th clustering column, counted from 1, is
-- a column which carries the cluster tag i, is not FLOAT, JSON, BYTES or RECORD, and not repeated.
pub resolve_layout-Sound :
    (cs : List Tagged) (r : Layout)
    → resolve_layout cs ≡ ok r
    → ((p : TimePartitioning) → r.partitioning ≡ some p → Some (Partitions p r.require_filter) cs)
      × ((names : List String) → r.clustering ≡ some names → Ordered cs 1 names)
unfolding resolve_layout HasPartition HasPositions
resolve_layout-Sound cs r h =
    let (l, first, last) = bind-ok (collect cs _) _ h in
    let (parts, places) =
      collect-Has cs cs _ l (λ P p. p) (λ p q. absurd (ground (arith, q))) tt first in
    let (t, f, order) = finish-Sound cs l r places last in
    (λ p q. subst (λ b. Some (Partitions p b) cs) (sym f) (parts p (sym t ∙ q)), order)
