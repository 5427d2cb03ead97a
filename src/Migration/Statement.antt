-- ===== src/Migration/Statement.antt =====
-- dropColumns: what may reach the ALTER TABLE statement.
use Prim.Native.String
use bqsink.Common.{
  ℕ, ◌≤◌, String, ◌≡◌, ◌≢◌, ◌↔◌, ◌⊎◌, inl, inr, refl, true, List, [], ◌∷◌, ap, map, arith, str_eq,
  All, Bool-cases, eq_iff,
}
use bqsink.Common.Text.{codes, join}
use bqsink.Relation.{Relation, quoted}
use bqsink.Fault.{Error, message, wrap, ok, err}
use bqsink.Exec.{wrapping, ◌>>◌}
use bqsink.Strategy.{warn}
use bqsink.Migration.{
  is_word, all_words, check_column_name, drop_clauses, statement, Target, drop_columns, logging,
}

-- A letter of ASCII, a digit or an underscore.
abbrev IsWord : ℕ → Type 0
IsWord c =
    ((b'a' ≤ c) × (c ≤ b'z')) ⊎ ((b'A' ≤ c) × (c ≤ b'Z')) ⊎ ((b'0' ≤ c) × (c ≤ b'9')) ⊎ (c ≡ b'_')

-- A text that is not empty and is made of such characters.
pub record IsColumnName (name : String) : Type 0 where
  pub filled : name ≢ ""
  pub plain : All IsWord (codes name)

is_word_iff : (c : ℕ) → (is_word c ≡ true) ↔ IsWord c
unfolding is_word
is_word_iff c = ground arith

all_words_iff : (cs : List ℕ) → (all_words cs ≡ true) ↔ All IsWord cs
unfolding all_words
all_words_iff [] = (λ h. tt, λ h. refl)
all_words_iff (c ∷ cs) =
    let w = is_word_iff c in
    let ih = all_words_iff cs in
    (λ h. (w.0 (ground arith), ih.0 (ground arith)), λ h. ground (arith, w.1 h.0, ih.1 h.1))

-- What checkColumnName decides.
check_column_name-cases :
    (name : String)
    → (IsColumnName name × (check_column_name name ≡ ok tt))
      ⊎ ((¬ IsColumnName name) × ((e : Error) × (check_column_name name ≡ err e)))
unfolding check_column_name
check_column_name-cases name = elim (Bool-cases (str_eq name "")) [
  | inl blank ↦
      inr (λ n. n.filled ((eq_iff name "").0 blank), (message "a column name is empty", rw blank))
  | inr full ↦ elim (Bool-cases (all_words (codes name))) [
    | inl good ↦ inl (
      record {
        filled = λ e. ground (arith, eq_iff name "");
        plain = (all_words_iff (codes name)).0 good;
      },
      rw (full, good),
    )
    | inr bad ↦ inr (
      λ n. ground (arith, (all_words_iff (codes name)).1 n.plain),
      (message "a column name contains what BigQuery does not allow", rw (full, bad)),
    )
  ]
]

abbrev pub clause : String → String
clause n = String.◌++◌ "DROP COLUMN `" (String.◌++◌ n "`")

pub drop_clauses-cases :
    (names : List String)
    → (All IsColumnName names × (drop_clauses names ≡ ok (map clause names)))
      ⊎ ((¬ All IsColumnName names) × ((e : Error) × (drop_clauses names ≡ err e)))
unfolding drop_clauses
drop_clauses-cases [] = inl (tt, refl)
drop_clauses-cases (n ∷ ns) = elim (check_column_name-cases n) [
  | inl (good, e) ↦ elim (drop_clauses-cases ns) [
    | inl (rest, r) ↦ inl ((good, rest), ground (arith, e, r))
    | inr (bad, (x, r)) ↦ inr (λ h. bad h.1, (x, ground (arith, e, r)))
  ]
  | inr (bad, (x, e)) ↦ inr (λ h. bad h.0, (wrap "bqsink: refusing to drop" x, ground (arith, e)))
]

abbrev ◌&◌ : String → String → String
s & t = String.◌++◌ s t

infixr 50 ◌&◌
-- A DROP COLUMN clause for each name, with a comma between two.
abbrev pub clauses_text : List String → String
clauses_text [] = ""
clauses_text (n ∷ []) = "DROP COLUMN `" & n & "`"
clauses_text (n ∷ m ∷ ns) = ("DROP COLUMN `" & n & "`") & ", " & clauses_text (m ∷ ns)

-- The text that drops the named columns of the table.
abbrev pub alter_text : Relation → List String → String
alter_text r names =
    "ALTER TABLE "
    & ("`" & r.project_id & "." & r.dataset_id & "." & r.table_id & "`")
    & " "
    & clauses_text names

join_clauses : (names : List String) → join ", " (map clause names) ≡ clauses_text names
unfolding join
join_clauses [] = refl
join_clauses (n ∷ []) = refl
join_clauses (n ∷ m ∷ ns) = ap (λ t. clause n & ", " & t) (join_clauses (m ∷ ns))

pub statement-alter_text :
    (r : Relation) (names : List String) → statement r (map clause names) ≡ alter_text r names
unfolding statement quoted
statement-alter_text r names = ap (λ t. "ALTER TABLE " & quoted r & " " & t) (join_clauses names)

-- If every name is not empty and consists of ASCII letters, digits and underscores, what is run is
-- "ALTER TABLE `project.dataset.table` " and then "DROP COLUMN `name`" for each name, in order and
-- with a comma and a space between two, and the outcome is that query's, with a warning that names
-- the columns after it. If some name is empty or has another character, nothing is run or logged: the
-- call fails and the world is as it was.
pub drop_columns-guarded :
    {W : Type 0} (s : Target W) (names : List String) (w : W)
    → (All IsColumnName names
        → drop_columns s names w
          ≡ (do
            wrapping "bqsink: drop columns" (s.run (alter_text s.relation names))
            logging s (record {
              level = warn;
              text = "dropped columns, and the data they held is gone";
              columns = names;
            }))
              w)
      × ((¬ All IsColumnName names) → (e : Error) × (drop_columns s names w ≡ (err e, w)))
unfolding drop_columns
drop_columns-guarded s names w = elim (drop_clauses-cases names) [
  | inl (good, e) ↦ (λ h. rw (e, statement-alter_text s.relation names), λ bad. absurd (bad good))
  | inr (bad, (x, e)) ↦ (λ good. absurd (bad good), λ h. (x, rw e))
]
