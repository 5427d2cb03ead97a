-- ===== src/Fault.antt =====
-- Go's `error` values, as the source builds and inspects them: sentinels of bqsink.go, errors of the
-- Google API and of gRPC by their code, `fmt.Errorf` with `%w` and `errors.Join`; and the result of a
-- call that may fail. `errors.Is` and `errors.As` walk the tree.
use bqsink.Common.{
  ℕ, String, Bool, true, false, ◌||◌, Option, none, some, ◌≡◌, refl, ap, if◌then◌else◌,
}

-- The gRPC codes that migration.go names, and any other.
pub data StatusCode : Type 0 where
  unavailable deadline_exceeded resource_exhausted internal aborted : StatusCode
  other_status : StatusCode

-- ErrSchemaConflict, ErrTableMissing and ErrWriterClosed of bqsink.go
pub data Sentinel : Type 0 where
  schema_conflict table_missing writer_closed : Sentinel

pub data Error : Type 0 where
  -- errors.New and fmt.Errorf without %w
  message : String → Error
  sentinel : Sentinel → Error
  -- *googleapi.Error with its HTTP code
  api_error : ℕ → Error
  -- an error that carries a gRPC status
  status_error : StatusCode → Error
  -- fmt.Errorf("text: %w", err)
  wrap : String → Error → Error
  -- errors.Join of two errors
  joined : Error → Error → Error

-- What a call of type (A, error) returns.
pub data Result {ℓ} (A : Type ℓ) : Type ℓ where
  ok : A → Result A
  err : Error → Result A

-- if err := f(); err != nil { return fmt.Errorf("text: %w", err) }
abbrev pub wrapping {ℓ} : {A : Type ℓ} → String → Result A → Result A
wrapping text (ok a) = ok a
wrapping text (err e) = err (wrap text e)

module _ {ℓ} {A : Type ℓ} where
  abbrev or_else : A → Result A → A
  or_else d (ok a) = a
  or_else d (err e) = d

  pub ok_inj : {a b : A} → ok a ≡ ok b → a ≡ b
  ok_inj {a} h = ap (or_else a) h

-- if bad { return e }
abbrev pub refuse_if : Bool → Error → Result (Unit {0})
refuse_if bad e = if bad then err e else ok tt

module _ {ℓ κ} {A : Type ℓ} {B : Type κ} where
  infixl 5 ◌>>=◌
  -- the statements after a call that has been tested for an error
  abbrev pub ◌>>=◌ : Result A → (A → Result B) → Result B
  ◌>>=◌ (err e) rest = err e
  ◌>>=◌ (ok a) rest = rest a

  pub bind-ok :
      (m : Result A) (rest : A → Result B) {b : B}
      → (m >>= rest) ≡ ok b
      → (a : A) × (m ≡ ok a) × (rest a ≡ ok b)
  bind-ok (ok a) rest h = (a, refl, h)
  bind-ok (err e) rest h = cc

module _ {κ} {B : Type κ} where
  infixl 5 ◌>>◌
  abbrev pub ◌>>◌ : Result (Unit {0}) → Result B → Result B
  ◌>>◌ (err e) rest = err e
  ◌>>◌ (ok u) rest = rest

abbrev same_sentinel : Sentinel → Sentinel → Bool
same_sentinel schema_conflict schema_conflict = true
same_sentinel table_missing table_missing = true
same_sentinel writer_closed writer_closed = true
same_sentinel _ _ = false

-- errors.Is(err, sentinel)
unfoldable pub is : Sentinel → Error → Bool
is s (sentinel t) = same_sentinel s t
is s (wrap text e) = is s e
is s (joined a b) = is s a || is s b
is s _ = false

abbrev first_code : Option ℕ → Option ℕ → Option ℕ
first_code (some c) o = some c
first_code none o = o

-- errors.As(err, &apiErr): the code of the first *googleapi.Error
unfoldable pub as_api : Error → Option ℕ
as_api (api_error c) = some c
as_api (wrap text e) = as_api e
as_api (joined a b) = first_code (as_api a) (as_api b)
as_api _ = none
