-- ===== src/Relation/Notation.antt =====
-- Parsing a table reference and writing it out again.
use Prim.Native.Char.{Char}
use Prim.Native.String.{String, ◌++◌}
use text.Mathlib.TextLemmas.{nil-append, cons-append}
use bqsink.Common.{
  ◌≡◌, ◌≢◌, ◌⊎◌, inl, inr, ap, ◌∙◌, sym, subst, List, [], ◌∷◌, arith, str_eq, Bool-cases, eq_iff,
  All,
}
use bqsink.Common.Text.{split, join}
use bqsink.Common.Splitting.{Lacks, join-split, split-parts, split-Lacks, split-append}
use bqsink.Fault.{ok}
use bqsink.Relation.{Relation, validate, validated, of_parts, parse_relation, to_string}

abbrev dot : Char
dot = "."

dot-append : (s : String) → "." ++ s ≡ String.◌∷◌ dot s
dot-append s = cons-append dot "" s ∙ ap (λ t. String.◌∷◌ dot t) (nil-append s)

-- A dataset and a table are named, and no part of the relation holds a dot.
pub record IsReference (r : Relation) : Type 0 where
  pub dataset : r.dataset_id ≢ ""
  pub table : r.table_id ≢ ""
  pub plain_project : Lacks b'.' r.project_id
  pub plain_dataset : Lacks b'.' r.dataset_id
  pub plain_table : Lacks b'.' r.table_id

split-two : (d t : String) → Lacks b'.' d → Lacks b'.' t → split b'.' (d ++ ("." ++ t)) ≡ d ∷ t ∷ []
split-two d t p q =
    rw (dot-append t) (split-append dot d t p ∙ ap (λ l. d ∷ l) (split-Lacks b'.' t q))

-- What String writes of a relation that names a dataset and a table and of which no part holds a dot,
-- ParseRelation reads back as that relation.
pub parse_relation-to_string : (r : Relation) → IsReference r → parse_relation (to_string r) ≡ ok r
unfolding parse_relation to_string validate
parse_relation-to_string r h = elim (Bool-cases (str_eq r.project_id "")) [
  | inl none ↦
      rw (none, split-two r.dataset_id r.table_id h.plain_dataset h.plain_table)
        (ground (
          arith,
          eq_iff r.project_id "",
          eq_iff r.dataset_id "",
          eq_iff r.table_id "",
          h.dataset,
          h.table,
        ))
  | inr some ↦
      rw
        (
          some,
          dot-append (r.dataset_id ++ ("." ++ r.table_id)),
          split-append dot r.project_id (r.dataset_id ++ ("." ++ r.table_id)) h.plain_project,
          split-two r.dataset_id r.table_id h.plain_dataset h.plain_table,
        )
        (ground (arith, eq_iff r.dataset_id "", eq_iff r.table_id "", h.dataset, h.table))
]

abbrev pub Reads : String → Relation → Type 0
Reads s r = IsReference r × ((s ≡ to_string r) ⊎ ((r.project_id ≡ "") × (s ≡ "." ++ to_string r)))

validated-IsReference :
    (s : String) (q r : Relation)
    → Lacks b'.' q.project_id
    → Lacks b'.' q.dataset_id
    → Lacks b'.' q.table_id
    → validated s q ≡ ok r
    → IsReference q × (q ≡ r)
unfolding validated validate
validated-IsReference s q r p d t h = (
  record {
    dataset = λ e. ground (arith, eq_iff q.dataset_id "");
    table = λ e. ground (arith, eq_iff q.table_id "");
    plain_project = p;
    plain_dataset = d;
    plain_table = t;
  },
  ground arith,
)

of_parts-Reads :
    (s : String) (parts : List String) (r : Relation)
    → join "." parts ≡ s
    → All (Lacks b'.') parts
    → of_parts s parts ≡ ok r
    → Reads s r
unfolding of_parts to_string join
of_parts-Reads s (p ∷ d ∷ t ∷ []) r e parts h =
    let (named, same) = validated-IsReference s _ r parts.0 parts.1.0 parts.1.1.0 h in
    subst (Reads s) same (
      named,
      elim (Bool-cases (str_eq p "")) [
        | inl none ↦ inr ((eq_iff p "").0 none, rw (none, ← e, (eq_iff p "").0 none) (nil-append _))
        | inr some ↦ inl (rw (some, ← e))
      ],
    )
of_parts-Reads s (d ∷ t ∷ []) r e parts h =
    let (named, same) = validated-IsReference s _ r tt parts.0 parts.1.0 h in
    subst (Reads s) same (named, inl (sym e))
of_parts-Reads s [] r e parts h = cc
of_parts-Reads s (a ∷ []) r e parts h = cc
of_parts-Reads s (a ∷ b ∷ c ∷ d ∷ rest) r e parts h = cc

-- An accepted reference is read as a relation that names a dataset and a table and of which no part
-- holds a dot. The reference is what String writes of that relation or, and then the relation has no
-- project, the same with a dot in front.
pub parse_relation-Reads : (s : String) (r : Relation) → parse_relation s ≡ ok r → Reads s r
unfolding parse_relation
parse_relation-Reads s r h =
    of_parts-Reads s (split b'.' s) r (join-split dot s) (split-parts b'.' s) h
