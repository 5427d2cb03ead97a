-- ===== src/Value.antt =====
-- The values that a row holds: what Go boxes in an `any`, as far as the conversions of maprow.go look
-- at it, and `bigquery.Value`, what they turn it into. A time, a date and a rational number are opaque
-- numbers. A Go integer is its 64-bit pattern.
use Prim.Native.Nat.{◌%◌}
use bqsink.Common.{
  ℕ, ◌-◌, ◌<◌, String, Bool, true, false, Option, none, some, List, ltb, arith, str_eq,
  if◌then◌else◌,
}

-- `negsuc n` is -(n + 1).
pub data ℤ : Type 0 where
  pos : ℕ → ℤ
  negsuc : ℕ → ℤ

-- 2 ^ 63
abbrev pub int64_boundary : ℕ
int64_boundary = 9223372036854775808

abbrev pub uint64_modulus : ℕ
uint64_modulus = 18446744073709551616

abbrev pub FitsInt64 : ℤ → Type 0
FitsInt64 (pos n) = n < int64_boundary
FitsInt64 (negsuc n) = n < int64_boundary

-- The int64 that a pattern stands for.
unfoldable pub signed : ℕ → ℤ
signed bits =
    let r = bits % uint64_modulus in
    if ltb r int64_boundary then pos r else negsuc (uint64_modulus - 1 - r)

pub signed-FitsInt64 : (bits : ℕ) → FitsInt64 (signed bits)
unfolding signed
signed-FitsInt64 bits = ground arith

-- A float64: not a number, infinite, or its integral part with whether something is left of it.
pub data Float : Type 0 where
  nan infinite : Float
  finite : ℤ → Bool → Float

mutual
  -- A value in an `any`, by its kind. A nil pointer, map or slice is `typed_nil`.
  pub data GoValue : Type 0 where
    untyped_nil typed_nil : GoValue
    string_value : String → GoValue
    int_value uint_value : ℕ → GoValue
    float_value : Float → GoValue
    bool_value : Bool → GoValue
    rat_value time_value date_value civil_time_value datetime_value : ℕ → GoValue
    -- a []byte, a json.RawMessage and a slice of bytes under a name of its own
    bytes_value raw_message named_bytes : List ℕ → GoValue
    pointer : GoValue → GoValue
    any_slice : Items → GoValue
    any_map : Entries → GoValue
    other_value : ℕ → GoValue

  -- []any
  pub data Items : Type 0 where
    no_items : Items
    item : GoValue → Items → Items

  -- map[string]any
  pub data Entries : Type 0 where
    no_entries : Entries
    entry : String → GoValue → Entries → Entries

mutual
  -- bigquery.Value
  pub data Value : Type 0 where
    null : Value
    text : String → Value
    integer : ℤ → Value
    float : Float → Value
    boolean : Bool → Value
    rational time date civil_time datetime : ℕ → Value
    bytes raw_json : List ℕ → Value
    elements : Values → Value
    row : Columns → Value
    foreign : ℕ → Value

  -- []bigquery.Value
  pub data Values : Type 0 where
    no_values : Values
    value : Value → Values → Values

  -- map[string]bigquery.Value
  pub data Columns : Type 0 where
    no_cells : Columns
    cell : String → Value → Columns → Columns

unfoldable pub find_entry : String → Entries → Option GoValue
find_entry k no_entries = none
find_entry k (entry j v es) = if str_eq j k then some v else find_entry k es

-- isNilAny of maprow.go
unfoldable pub is_nil_any : GoValue → Bool
is_nil_any untyped_nil = true
is_nil_any typed_nil = true
is_nil_any (pointer v) = is_nil_any v
is_nil_any _ = false
