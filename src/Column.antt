-- ===== src/Column.antt =====
-- `bigquery.FieldSchema` and `bigquery.Schema`, as far as the source reads and writes them, and
-- `namesOf` of migration.go. A schema inside a RECORD is a data type of its own, since it nests.
use bqsink.Common.{ℕ, String, ◌≡◌, refl, ap, ◌∙◌, sym, ◌↔◌, Bool, true, List, [], ◌∷◌, ◌==◌, arith}

pub data FieldType : Type 0 where
  string_type bytes_type integer_type float_type boolean_type timestamp_type : FieldType
  record_type date_type time_type datetime_type numeric_type big_numeric_type : FieldType
  geography_type json_type interval_type range_type : FieldType

abbrev position : FieldType → ℕ
position string_type = 0
position bytes_type = 1
position integer_type = 2
position float_type = 3
position boolean_type = 4
position timestamp_type = 5
position record_type = 6
position date_type = 7
position time_type = 8
position datetime_type = 9
position numeric_type = 10
position big_numeric_type = 11
position geography_type = 12
position json_type = 13
position interval_type = 14
position range_type = 15

abbrev all_types : List FieldType
all_types =
    string_type ∷ bytes_type ∷ integer_type ∷ float_type ∷ boolean_type ∷ timestamp_type
    ∷ record_type ∷ date_type ∷ time_type ∷ datetime_type ∷ numeric_type ∷ big_numeric_type
    ∷ geography_type ∷ json_type ∷ interval_type ∷ range_type ∷ []

abbrev nth : ℕ → List FieldType → FieldType
nth n [] = string_type
nth ℕ.zero (t ∷ ts) = t
nth (ℕ.suc n) (t ∷ ts) = nth n ts

-- a == b on field types
unfoldable pub type_eq : FieldType → FieldType → Bool
type_eq a b = position a == position b

nth-position : (t : FieldType) → nth (position t) all_types ≡ t
nth-position string_type = refl
nth-position _ = refl

pub type_eq_iff : (a b : FieldType) → (type_eq a b ≡ true) ↔ (a ≡ b)
unfolding type_eq
type_eq_iff a b = (
  λ h.
      sym (nth-position a)
      ∙ ap (λ n. nth n all_types) (same_number (position a) (position b) h)
      ∙ nth-position b,
  λ e. ap (λ t. position t == position b) e ∙ self (position b),
)
  where
    same_number : (m n : ℕ) → (m == n) ≡ true → m ≡ n
    same_number m n h = ground arith

    self : (n : ℕ) → (n == n) ≡ true
    self n = ground arith

-- The columns of a RECORD: name, type, repeated, required, description, scale and the column's own
-- columns, then the columns after it.
pub data Nested : Type 0 where
  no_columns : Nested
  column :
      (name : String) (field_type : FieldType) (repeated required : Bool) (description : String)
      (scale : ℕ) (schema rest : Nested)
      → Nested

-- The other attributes of a column are carried along unread. `scale` is 0 where none is stated.
pub record FieldSchema : Type 0 where
  pub name : String
  pub field_type : FieldType
  pub repeated : Bool
  pub required : Bool
  pub description : String
  pub scale : ℕ
  pub schema : Nested

abbrev pub Schema : Type 0
Schema = List FieldSchema

abbrev pub columns : Nested → Schema
columns no_columns = []
columns (column n t rep req d s sub rest) =
    record {
      name = n;
      field_type = t;
      repeated = rep;
      required = req;
      description = d;
      scale = s;
      schema = sub;
    }
    ∷ columns rest

abbrev pub names_of : Schema → List String
names_of [] = []
names_of (f ∷ fs) = f.name ∷ names_of fs
