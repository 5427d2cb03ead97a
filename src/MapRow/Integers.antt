-- ===== src/MapRow/Integers.antt =====
-- The integers that an INTEGER column takes: marshalIntegerColumn against arithmetic.
use Prim.Native.Nat.{◌%◌}
use bqsink.Common.{
  ℕ, ◌-◌, ◌<◌, ◌≡◌, ◌↔◌, ap, sym, ◌∙◌, subst, Bool, true, false, Option, none, some, inl, inr, ltb,
  arith, Bool-cases,
}
use bqsink.Fault.{ok, ok_inj}
use bqsink.Value.{
  ℤ, pos, negsuc, int64_boundary, uint64_modulus, FitsInt64, signed, signed-FitsInt64, Float, nan,
  infinite, finite, GoValue, int_value, uint_value, float_value, integer,
}
use bqsink.MapRow.{int64_from_uint64, overflows, int64_from_float, marshal_integer}

-- The integer that a Go number is, if it is one.
abbrev pub number_of : GoValue → Option ℤ
number_of (int_value bits) = some (signed bits)
number_of (uint_value bits) = some (pos (bits % uint64_modulus))
number_of (float_value (finite n false)) = some n
number_of _ = none

integer_inj : {a b : ℤ} → integer a ≡ integer b → a ≡ b
integer_inj h = cc

some_inj : {a b : ℤ} → some a ≡ some b → a ≡ b
some_inj h = cc

in_range : (n : ℤ) (rest : Bool) → overflows n rest ≡ false → FitsInt64 n
unfolding overflows
in_range (pos n) rest h = ground arith
in_range (negsuc n) rest h = ground arith

not_over : (n : ℤ) → FitsInt64 n → overflows n false ≡ false
unfolding overflows
not_over (pos n) h = ground arith
not_over (negsuc n) h = ground arith

uint_value-exact :
    (bits : ℕ) (n : ℤ)
    → (int64_from_uint64 bits ≡ ok (integer n))
      ↔ ((number_of (uint_value bits) ≡ some n) × FitsInt64 n)
unfolding int64_from_uint64
uint_value-exact bits n = elim (Bool-cases (ltb (int64_boundary - 1) (bits % uint64_modulus))) [
  | inl over ↦ (
    λ h. let h' = rw over at h in cc,
    λ (e, f).
        let small : (bits % uint64_modulus) < int64_boundary =
          subst FitsInt64 (sym (some_inj e)) f in
        let clash : true ≡ false = sym over ∙ ground arith in cc,
  )
  | inr fits ↦ (
    λ h.
        let same : ok (integer (pos (bits % uint64_modulus))) ≡ ok (integer n) = rw fits at h in
        let e : pos (bits % uint64_modulus) ≡ n = integer_inj (ok_inj same) in
        (ap some e, subst FitsInt64 e (ground arith)),
    λ (e, f). rw fits (ap (λ k. ok (integer k)) (some_inj e)),
  )
]

float_value-exact :
    (v : Float) (n : ℤ)
    → (int64_from_float v ≡ ok (integer n)) ↔ ((number_of (float_value v) ≡ some n) × FitsInt64 n)
unfolding int64_from_float
float_value-exact nan n = (λ h. cc, λ (e, f). cc)
float_value-exact infinite n = (λ h. cc, λ (e, f). cc)
float_value-exact (finite k true) n = elim (Bool-cases (overflows k true)) [
  | inl over ↦ (λ h. let h' = rw over at h in cc, λ (e, f). cc)
  | inr fits ↦ (λ h. let h' = rw fits at h in cc, λ (e, f). cc)
]
float_value-exact (finite k false) n = elim (Bool-cases (overflows k false)) [
  | inl over ↦ (
    λ h. let h' = rw over at h in cc,
    λ (e, f).
        let clash : true ≡ false = sym over ∙ not_over k (subst FitsInt64 (sym (some_inj e)) f) in
        cc,
  )
  | inr fits ↦ (
    λ h.
        let same : k ≡ n = integer_inj (ok_inj (rw fits at h)) in
        (ap some same, subst FitsInt64 same (in_range k false fits)),
    λ (e, f). rw fits (ap (λ k. ok (integer k)) (some_inj e)),
  )
]

-- An INTEGER column takes a Go value as the number n exactly when the value is an integer, or a float
-- without a fractional part, that is n, and n is within int64.
pub marshal_integer-exact :
    (v : GoValue) (n : ℤ)
    → (marshal_integer v ≡ ok (integer n)) ↔ ((number_of v ≡ some n) × FitsInt64 n)
unfolding marshal_integer
marshal_integer-exact (int_value bits) n = (
  λ h.
      let same : signed bits ≡ n = integer_inj (ok_inj h) in
      (ap some same, subst FitsInt64 same (signed-FitsInt64 bits)),
  λ (e, f). ap (λ k. ok (integer k)) (some_inj e),
)
marshal_integer-exact (uint_value bits) n = uint_value-exact bits n
marshal_integer-exact (float_value v) n = float_value-exact v n
marshal_integer-exact _ n = (λ h. cc, λ (e, f). cc)
