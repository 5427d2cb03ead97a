-- ===== src/Exec.antt =====
-- Calls that act on the world and may fail. What was done before a failure stays done, so the world
-- comes back beside the error too.
use bqsink.Common.{String, ◌≡◌, refl}
use bqsink.Fault.{Error, wrap, Result, ok, err}

abbrev pub Exec {ℓ κ} : Type ℓ → Type κ → Type (ℓ ⊔ κ)
Exec W A = W → Result A × W

module _ {ℓ κ} {W : Type ℓ} {A : Type κ} where
  abbrev pub pure : A → Exec W A
  pure a w = (ok a, w)

  abbrev pub fail : Error → Exec W A
  fail e w = (err e, w)

  abbrev pub lift : Result A → Exec W A
  lift r w = (r, w)

  -- if err := f(); err != nil { return fmt.Errorf("text: %w", err) }
  abbrev wrap_pair : String → Result A × W → Result A × W
  wrap_pair text (ok a, w) = (ok a, w)
  wrap_pair text (err e, w) = (err (wrap text e), w)

  abbrev pub wrapping : String → Exec W A → Exec W A
  wrapping text m w = wrap_pair text (m w)

module _ {ℓ κ μ} {W : Type ℓ} {A : Type κ} {B : Type μ} where
  abbrev next : Result A × W → (A → Exec W B) → Result B × W
  next (ok a, w) f = f a w
  next (err e, w) f = (err e, w)

  infixl 5 ◌>>=◌
  abbrev pub ◌>>=◌ : Exec W A → (A → Exec W B) → Exec W B
  ◌>>=◌ m f w = next (m w) f

module _ {ℓ} {W B : Type ℓ} where
  infixl 5 ◌>>◌
  abbrev pub ◌>>◌ : Exec W (Unit {0}) → Exec W B → Exec W B
  m >> k = m >>= λ _. k

module _ {ℓ κ μ} {W : Type ℓ} {A : Type κ} {B : Type μ} where
  pub next-ok :
      (p : Result A × W) (f : A → Exec W B) {b : B} {w' : W}
      → next p f ≡ (ok b, w')
      → (a : A) × (v : W) × (p ≡ (ok a, v)) × (f a v ≡ (ok b, w'))
  next-ok (ok a, v) f h = (a, v, refl, h)
  next-ok (err e, v) f h = cc

  -- A block that succeeds has a first call that succeeds.
  pub bind-ok :
      (m : Exec W A) (f : A → Exec W B) {w w' : W} {b : B}
      → (m >>= f) w ≡ (ok b, w')
      → (a : A) × (v : W) × (m w ≡ (ok a, v)) × (f a v ≡ (ok b, w'))
  bind-ok m f {w} h = next-ok (m w) f h

module _ {ℓ κ} {W : Type ℓ} {A : Type κ} where
  wrap_pair-ok :
      (text : String) (p : Result A × W) {a : A} {v : W}
      → wrap_pair text p ≡ (ok a, v)
      → p ≡ (ok a, v)
  wrap_pair-ok text (ok a, w) h = h
  wrap_pair-ok text (err e, w) h = cc

  pub wrapping-ok :
      (text : String) (m : Exec W A) {w v : W} {a : A}
      → wrapping text m w ≡ (ok a, v)
      → m w ≡ (ok a, v)
  wrapping-ok text m {w} h = wrap_pair-ok text (m w) h
