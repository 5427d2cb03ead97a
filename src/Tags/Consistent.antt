-- ===== src/Tags/Consistent.antt =====
-- What an accepted set of tags cannot say.
use bqsink.Common.{
  ℕ, ◌≤◌, String, ◌≡◌, inl, inr, refl, subst, Bool, true, false, not, ◌&&◌, ◌||◌, Option, none,
  some, List, [], ◌∷◌, str_eq, leb, if◌then◌else◌, arith, Bool-cases,
}
use bqsink.Common.Text.{split, cut}
use bqsink.Fault.{bind-ok, message, Result, ok, err}
use bqsink.Metadata.{PartitioningType}
use bqsink.Tags.{
  FieldTag, no_tag, is_time_option, read_option, read_options, check_options, parse_tag,
  granularity_of, read_requirements, parse_partition, parse_cluster, if_present, got,
  parse_field_tags,
}

-- The options of a tag do not contradict each other.
pub record IsConsistent (t : FieldTag) : Type 0 where
  pub nullable : (t.required && t.null_if_zero) ≡ false
  pub one_type : (t.is_record && not (str_eq t.time_type "")) ≡ false
  pub time : (str_eq t.time_type "" || is_time_option t.time_type) ≡ true
  pub clustered : t.cluster ≤ 4
  pub skipped : t.skip ≡ true → t ≡ record no_tag { skip = true }

-- What the options leave alone or keep.
record Starts (t : FieldTag) : Type 0 where
  unskipped : t.skip ≡ false
  unclustered : t.cluster ≤ 4
  time : (str_eq t.time_type "" || is_time_option t.time_type) ≡ true

read_option-Starts : (o : String) (t u : FieldTag) → Starts t → read_option o t ≡ ok u → Starts u
unfolding read_option
read_option-Starts o t u s h = record {
  unskipped = ground (arith, s.unskipped, h);
  unclustered = ground (arith, s.unclustered, h);
  time = ground (arith, s.time, h);
}

read_options-Starts :
    (os : List String) (t u : FieldTag) → Starts t → read_options os t ≡ ok u → Starts u
unfolding read_options
read_options-Starts [] t u s h = subst Starts (ground (arith, h)) s
read_options-Starts (o ∷ os) t u s h =
    let (x, first, rest) = bind-ok (read_option o t) _ h in
    read_options-Starts os x u (read_option-Starts o t x s first) rest

check_options-IsConsistent :
    (t u : FieldTag) → Starts t → check_options t ≡ ok u → (u.skip ≡ false) × IsConsistent u
unfolding check_options
check_options-IsConsistent t u s h =
    let same : t ≡ u = ground (arith, h) in
    subst (λ x. (x.skip ≡ false) × IsConsistent x) same
      (
        s.unskipped,
        record {
          nullable = ground (arith, h);
          one_type = ground (arith, h);
          time = s.time;
          clustered = s.unclustered;
          skipped = λ e. absurd (ground (arith, e, s.unskipped));
        },
      )

parse_tag-IsConsistent : (s : String) (t : FieldTag) → parse_tag s ≡ ok t → IsConsistent t
unfolding parse_tag
parse_tag-IsConsistent s t h = elim (Bool-cases (str_eq s "-")) [
  | inl dropped ↦
      let same : record no_tag { skip = true } ≡ t = ground (arith, rw dropped at h) in
      subst IsConsistent same (record {
        nullable = refl;
        one_type = refl;
        time = refl;
        clustered = omega arith;
        skipped = λ e. refl;
      })
  | inr kept ↦
      let (x, first, last) =
        bind-ok (read_options (split b',' (cut b',' s).1) _) _ (rw kept at h) in
      let start : Starts (record no_tag { name = (cut b',' s).0 }) = record {
        unskipped = refl;
        unclustered = omega arith;
        time = refl;
      } in
      (check_options-IsConsistent x t (read_options-Starts _ _ x start first) last).1
]

-- A tag that is read further: not skipped, and consistent.
abbrev Good : FieldTag → Type 0
Good t = (t.skip ≡ false) × IsConsistent t

Good-with :
    (t : FieldTag) (p : Option PartitioningType) (f : Bool) (c : ℕ) (d : String)
    → Good t
    → c ≤ 4
    → Good (record t { partition = p; require_filter = f; cluster = c; description = d })
Good-with t p f c d g h = (
  g.0,
  record {
    nullable = g.1.nullable;
    one_type = g.1.one_type;
    time = g.1.time;
    clustered = h;
    skipped = λ e. absurd (ground (arith, e, g.0));
  },
)

module _ (to_lower : String → String) (atoi : String → Option ℕ) where
  read_requirements-Good :
      (os : List String) (t u : FieldTag) → Good t → read_requirements to_lower os t ≡ ok u → Good u
  unfolding read_requirements
  read_requirements-Good [] t u g h = subst Good (ground (arith, h)) g
  read_requirements-Good (o ∷ os) t u g h = elim (Bool-cases (str_eq (to_lower o) "")) [
    | inl blank ↦ read_requirements-Good os t u g (rw blank at h)
    | inr filled ↦ elim (Bool-cases (str_eq (to_lower o) "require")) [
      | inl asks ↦
          read_requirements-Good os (record t { require_filter = true }) u
            (Good-with t t.partition true t.cluster t.description g g.1.clustered)
            (rw (filled, asks) at h)
      | inr other ↦ let h' = rw (filled, other) at h in cc
    ]
  ]

  parse_partition-Good :
      (v : String) (t u : FieldTag) → Good t → parse_partition to_lower v t ≡ ok u → Good u
  unfolding parse_partition
  parse_partition-Good v t u g h =
      let (p, first, last) = bind-ok (granularity_of to_lower (cut b',' v).0) _ h in
      read_requirements-Good (split b',' (cut b',' v).1) (record t { partition = some p }) u
        (Good-with t (some p) t.require_filter t.cluster t.description g g.1.clustered) last

  parse_cluster-Good :
      (v : String) (t u : FieldTag) → Good t → parse_cluster to_lower atoi v t ≡ ok u → Good u
  unfolding parse_cluster
  parse_cluster-Good v t u g h = go (atoi v) h
    where
      go :
          (o : Option ℕ)
          → (elim o as (λ x. Result FieldTag) [
            | none ↦ err (message "the cluster tag wants a position counting from 1")
            | some position ↦
                if leb 1 position && leb position 4
                then ok (record t { cluster = position })
                else err (message "the cluster tag wants a position from 1 to 4")
          ])
            ≡ ok u
          → Good u
      go none k = cc
      go (some n) k = elim (Bool-cases (leb 1 n && leb n 4)) [
        | inl fits ↦
            let same : record t { cluster = n } ≡ u = ground (arith, rw fits at k) in
            subst Good same
              (Good-with t t.partition t.require_filter n t.description g (ground arith))
        | inr outside ↦ let k' = rw outside at k in cc
      ]

  present-Good :
      (o : Option String) (read : String → FieldTag → Result FieldTag) (t u : FieldTag)
      → ((v : String) → read v t ≡ ok u → Good u)
      → Good t
      → if_present to_lower atoi o read t ≡ ok u
      → Good u
  present-Good none read t u f g h = subst Good (ground (arith, h)) g
  present-Good (some v) read t u f g h = f v h

  -- The tags of a field that are accepted never make a column both REQUIRED and NULL where zero, never
  -- ask for a RECORD and for a time type, name only a time type there is, and a cluster position of at
  -- most 4; and a field that is skipped carries nothing else.
  pub parse_field_tags-IsConsistent :
      (keys : String → Option String) (t : FieldTag)
      → parse_field_tags to_lower atoi keys ≡ ok t
      → IsConsistent t
  unfolding parse_field_tags
  parse_field_tags-IsConsistent keys t h =
      let (x, first, last) = bind-ok (parse_tag (got to_lower atoi (keys "bqsink"))) _ h in
      let fine = parse_tag-IsConsistent _ x first in
      elim (Bool-cases x.skip) [
        | inl skipped ↦ subst IsConsistent (ground (arith, rw skipped at last)) fine
        | inr kept ↦
            let (y, second, rest) =
              bind-ok (if_present to_lower atoi (keys "partition") (parse_partition to_lower) x) _
                (rw kept at last) in
            let (z, third, end) =
              bind-ok (if_present to_lower atoi (keys "cluster") (parse_cluster to_lower atoi) y) _
                rest in
            let gy =
              present-Good (keys "partition") _ x y (λ v. parse_partition-Good v x y (kept, fine))
                (kept, fine) second in
            let gz =
              present-Good (keys "cluster") _ y z (λ v. parse_cluster-Good v y z gy) gy third in
            let d = got to_lower atoi (keys "description") in
            let same : record z { description = d } ≡ t = ground (arith, end) in
            subst IsConsistent same
              (Good-with z z.partition z.require_filter z.cluster d gz gz.1.clustered).1
      ]
