-- ===== src/Declare/Merging.antt =====
-- Nothing that a declaration says of the table is lost, and nothing is said twice.
use bqsink.Common.{
  String, ◌≡◌, ◌⊎◌, inl, inr, ◌↔◌, refl, ap, sym, eq_iff, ◌∙◌, subst, Bool, true, false, not,
  Option, none, some, List, [], ◌∷◌, str_eq, is_empty, contains, arith, Bool-cases, All,
}
use bqsink.Fault.{bind-ok, ok}
use bqsink.Column.{Schema, names_of}
use bqsink.Metadata.{TableMetadata}
use bqsink.Declare.{
  FieldPlan, RowPlan, plan_schema, column_names, missing_names, check_plan_against_schema,
  resolve_schema, is_some, or_empty, says_nothing, set_partitioning, set_description, set_labels,
  set_clustering, resolve_table_metadata,
}

all_declared :
    (ns : List String) (schema : Schema)
    → is_empty (missing_names ns schema) ≡ true
    → All (λ n. contains n (names_of schema) ≡ true) ns
unfolding missing_names
all_declared [] schema h = tt
all_declared (n ∷ ns) schema h = elim (Bool-cases (contains n (names_of schema))) [
  | inl there ↦ (there, all_declared ns schema (rw there at h))
  | inr absent ↦ let h' = rw absent at h in cc
]

plan_names : (fs : List FieldPlan) → names_of (plan_schema fs) ≡ column_names fs
unfolding plan_schema column_names
plan_names [] = refl
plan_names (f ∷ fs) = ap (λ l. f.name ∷ l) (plan_names fs)

-- A setting of the metadata and of the plan: at most one of them is there, and the outcome is it.
abbrev Picks : {A : Type 0} → (A → Bool) → A → A → A → Type 0
Picks set mine theirs out =
    ((set mine ≡ true) × (set theirs ≡ false) × (out ≡ mine))
    ⊎ ((set mine ≡ false) × (out ≡ theirs))

abbrev nonblank : String → Bool
nonblank s = not (str_eq s "")

abbrev nonempty : {A : Type 0} → List A → Bool
nonempty l = not (is_empty l)

-- What the metadata `md` and the plan come to as `out`.
pub record Merges (md : TableMetadata) (plan : RowPlan) (out : TableMetadata) : Type 0 where
  pub partitions : Picks is_some plan.partitioning md.time_partitioning out.time_partitioning
  pub no_range : is_some plan.partitioning ≡ true → md.range_partitioning ≡ none
  pub describes : Picks nonblank plan.description md.description out.description
  pub labels : Picks nonempty plan.labels md.labels out.labels
  pub clusters : Picks is_some plan.clustering md.clustering out.clustering
  pub schema : out.schema ≡ md.schema

set_partitioning-ok :
    (plan : RowPlan) (md out : TableMetadata)
    → set_partitioning plan md ≡ ok out
    → Picks is_some plan.partitioning md.time_partitioning out.time_partitioning
      × (is_some plan.partitioning ≡ true → md.range_partitioning ≡ none)
      × (out.description ≡ md.description)
      × (out.labels ≡ md.labels)
      × (out.clustering ≡ md.clustering)
      × (out.schema ≡ md.schema)
unfolding set_partitioning
set_partitioning-ok plan md out h = ground (arith, h)

set_description-ok :
    (plan : RowPlan) (md out : TableMetadata)
    → set_description plan md ≡ ok out
    → Picks nonblank plan.description md.description out.description
      × (out.time_partitioning ≡ md.time_partitioning)
      × (out.labels ≡ md.labels)
      × (out.clustering ≡ md.clustering)
      × (out.schema ≡ md.schema)
unfolding set_description
set_description-ok plan md out h = ground (arith, h)

set_labels-ok :
    (plan : RowPlan) (md out : TableMetadata)
    → set_labels plan md ≡ ok out
    → Picks nonempty plan.labels md.labels out.labels
      × (out.time_partitioning ≡ md.time_partitioning)
      × (out.description ≡ md.description)
      × (out.clustering ≡ md.clustering)
      × (out.schema ≡ md.schema)
unfolding set_labels
set_labels-ok plan md out h = ground (arith, h)

set_clustering-ok :
    (plan : RowPlan) (md out : TableMetadata)
    → set_clustering plan md ≡ ok out
    → Picks is_some plan.clustering md.clustering out.clustering
      × (out.time_partitioning ≡ md.time_partitioning)
      × (out.description ≡ md.description)
      × (out.labels ≡ md.labels)
      × (out.schema ≡ md.schema)
unfolding set_clustering
set_clustering-ok plan md out h = ground (arith, h)

chain-Merges :
    (plan : RowPlan) (md a b c out : TableMetadata)
    → set_partitioning plan md ≡ ok a
    → set_description plan a ≡ ok b
    → set_labels plan b ≡ ok c
    → set_clustering plan c ≡ ok out
    → Merges md plan out
chain-Merges plan md a b c out h i j k =
    let (p, r, d1, l1, c1, s1) = set_partitioning-ok plan md a h in
    let (d, t2, l2, c2, s2) = set_description-ok plan a b i in
    let (l, t3, d3, c3, s3) = set_labels-ok plan b c j in
    let (q, t4, d4, l4, s4) = set_clustering-ok plan c out k in
    record {
      partitions = rw (t4, t3, t2) p;
      no_range = r;
      describes = rw (d4, d3, ← d1) d;
      labels = rw (l4, ← l1, ← l2) l;
      clusters = rw (← c1, ← c2, ← c3) q;
      schema = s4 ∙ s3 ∙ s2 ∙ s1;
    }

-- The plan says nothing of the table.
pub record SaysNothing (plan : RowPlan) : Type 0 where
  pub partitioning : plan.partitioning ≡ none
  pub clustering : plan.clustering ≡ none
  pub description : plan.description ≡ ""
  pub labels : plan.labels ≡ []

says_nothing_iff : (plan : RowPlan) → (says_nothing plan ≡ true) ↔ SaysNothing plan
says_nothing_iff plan = (
  λ h. record {
    partitioning = ground (arith, h);
    clustering = ground (arith, h);
    description = ground (arith, h, eq_iff plan.description "");
    labels = ground (arith, h);
  },
  λ n.
      ground
        (arith, n.partitioning, n.clustering, n.description, n.labels, eq_iff plan.description ""),
)

-- Where the metadata of a row type and its tags are merged: each of the time partitioning, the
-- description, the labels and the clustering is the tags' if they set it, and then the metadata does
-- not, or else the metadata's; a tagged partitioning column excludes a range partitioning; and the
-- metadata's schema is kept. Where neither a tag nor an embedded TableMeta says anything of the table,
-- the outcome is the metadata itself, so none if there is none.
pub resolve_table_metadata-Merges :
    (md out : Option TableMetadata) (plan : RowPlan)
    → resolve_table_metadata md plan ≡ ok out
    → (SaysNothing plan × (out ≡ md))
      ⊎ ((¬ SaysNothing plan)
          × (merged : TableMetadata) × (out ≡ some merged)
          × Merges (or_empty md) plan merged)
unfolding resolve_table_metadata
resolve_table_metadata-Merges md out plan h = elim (Bool-cases (says_nothing plan)) [
  | inl quiet ↦ inl ((says_nothing_iff plan).0 quiet, ground (arith, rw quiet at h))
  | inr speaks ↦
      let (a, h1, rest) = bind-ok (set_partitioning plan (or_empty md)) _ (rw speaks at h) in
      let (b, h2, rest2) = bind-ok (set_description plan a) _ rest in
      let (c, h3, rest3) = bind-ok (set_labels plan b) _ rest2 in
      let (d, h4, last) = bind-ok (set_clustering plan c) _ rest3 in
      inr (
        λ n. let clash : true ≡ false = sym ((says_nothing_iff plan).1 n) ∙ speaks in cc,
        d,
        ground (arith, last),
        chain-Merges plan (or_empty md) a b c d h1 h2 h3 h4,
      )
]

-- A schema that is settled has a column for every field that the plan writes, and is the one that the
-- metadata spells out if there is one.
pub resolve_schema-covers :
    (declared : Option Schema) (fields : List FieldPlan) (schema : Schema)
    → resolve_schema declared fields ≡ ok schema
    → ((declared ≡ none) × (names_of schema ≡ column_names fields))
      ⊎ ((declared ≡ some schema)
          × All (λ n. contains n (names_of schema) ≡ true) (column_names fields))
unfolding resolve_schema check_plan_against_schema
resolve_schema-covers none fields schema h =
    inl (refl, rw (← plan_names fields) (ap names_of (ground (arith, h))))
resolve_schema-covers (some fs) fields schema h =
    elim (Bool-cases (is_empty (missing_names (column_names fields) fs))) [
      | inl full ↦
          let e : ok fs ≡ ok schema = rw full at h in
          let same : fs ≡ schema = ground (arith, e) in
          inr (
            ap some same,
            subst (λ x. All (λ n. contains n (names_of x) ≡ true) (column_names fields)) same
                (all_declared (column_names fields) fs full),
          )
      | inr lacking ↦ let h' = rw lacking at h in cc
    ]
