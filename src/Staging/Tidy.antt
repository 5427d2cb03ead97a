-- ===== src/Staging/Tidy.antt =====
-- What a staged load leaves in Cloud Storage, and what it reports.
use bqsink.Common.{ℕ, String, ◌≡◌, ◌⊎◌, true, false, List, ◌∷◌}
use bqsink.Fault.{Error, Result, ok, err}
use bqsink.Staging.{Settings, Source, Clients}

-- What Delete does to an object that is there: an error keeps it, unless it says that it is gone.
abbrev pub AfterDelete :
    {W Job : Type 0}
    → Clients W Job
    → (W → List String)
    → String
    → List String
    → Result (Unit {0}) × W
    → Type 0
AfterDelete x objects n before (ok u, w) = objects w ≡ before
AfterDelete x objects n before (err e, w) =
    (x.is_not_exist e ≡ true → objects w ≡ before)
    × (x.is_not_exist e ≡ false → objects w ≡ n ∷ before)

-- What Cloud Storage documents: an object appears when its upload is finished, a load job only reads.
pub record Behaves {W Job : Type 0} (x : Clients W Job) (objects : W → List String) : Type 0 where
  pub closed :
      (n : String) (b : List ℕ) (w w' w'' : W)
      → x.write_object n b w ≡ (ok tt, w')
      → x.close_object n w' ≡ (ok tt, w'')
      → objects w'' ≡ n ∷ objects w
  pub removed :
      (n : String) (w : W) (before : List String)
      → objects w ≡ n ∷ before
      → AfterDelete x objects n before (x.delete_object n w)
  pub run : (s : Source) (w : W) → objects (x.run_job s w).1 ≡ objects w
  pub wait : (j : Job) (w : W) → objects (x.wait_job j w).1 ≡ objects w
  pub logged : (n : String) (e : Error) (w : W) → objects (x.warn n e w) ≡ objects w

module _ {W Job : Type 0} (x : Clients W Job) (objects : W → List String)
    (behaves : Behaves x objects) (s : Settings) (name : String) where
  -- The object is not asked to be removed, or its removal in this world fails.
  abbrev pub Stays : W → Type 0
  Stays u =
      (s.keep ≡ true)
      ⊎ ((e : Error) × ((x.delete_object name u).0 ≡ err e) × (x.is_not_exist e ≡ false))

  -- What a clean-up that begins in the world u leaves in w.
  abbrev pub Leaves : List String → W → W → Type 0
  Leaves before u w = ((¬ Stays u) × (objects w ≡ before)) ⊎ (Stays u × (objects w ≡ name ∷ before))
