-- ===== src/Staging.antt =====
-- bqgcs/staging.go and the loaders of write.go: rows that are written to an object of Cloud Storage, the
-- load job that reads it, and the deletion. The clients of Cloud Storage and BigQuery are the record
-- Clients, whose calls act on a world; the object's name, a time and a counter, is given.
pub mod Tidy
use bqsink.Common.{
  ℕ, String, Bool, true, false, not, Option, none, some, List, [], ◌∷◌, ◌&&◌, ◌==◌, str_eq,
  if◌then◌else◌,
}
use bqsink.Common.Text.{codes}
use bqsink.Fault.{Error, message, wrap, Result, ok, err}
use bqsink.Exec.{Exec}

pub record Settings : Type 0 where
  pub has_client : Bool
  pub bucket : String
  pub keep : Bool

-- strings.HasPrefix, of the texts' codes
unfoldable pub starts_with : List ℕ → List ℕ → Bool
starts_with s [] = true
starts_with [] (q ∷ qs) = false
starts_with (c ∷ s) (q ∷ qs) = c == q && starts_with s qs

-- Staging.Validate
unfoldable pub validate_staging : Settings → Result (Unit {0})
validate_staging s =
    if not s.has_client
    then err (message "bqgcs: Staging: Client is nil")
    else if str_eq s.bucket ""
    then err (message "bqgcs: Staging: Bucket is empty")
    else if starts_with (codes s.bucket) (codes "gs://")
    then err (message "bqgcs: Staging: Bucket wants the name alone without the gs:// scheme")
    else ok tt

-- What a load job reads: the rows themselves or an object.
pub data Source : Type 0 where
  rows_given : List ℕ → Source
  object_at : String → Source

pub record Clients (W Job : Type 0) : Type 0 where
  -- the object's writer: Write, then Close, after which the object is there
  pub write_object : String → List ℕ → Exec W (Unit {0})
  pub close_object : String → Exec W (Unit {0})
  pub delete_object : String → Exec W (Unit {0})
  -- errors.Is(err, storage.ErrObjectNotExist)
  pub is_not_exist : Error → Bool
  -- Loader.Run, Job.Wait and JobStatus.Err
  pub run_job : Source → Exec W Job
  pub wait_job : Job → Exec W (Option Error)
  -- the log record of a cleanup that failed
  pub warn : String → Error → W → W

module _ {W Job : Type 0} (x : Clients W Job) where
  abbrev outcome : Option Error → Result (Unit {0})
  outcome none = ok tt
  outcome (some e) = err (wrap "bqsink: load job failed" e)

  abbrev waited : Result (Option Error) × W → Result (Unit {0}) × W
  waited (err e, w) = (err (wrap "bqsink: wait for load job" e), w)
  waited (ok status, w) = (outcome status, w)

  abbrev submitted : Result Job × W → Result (Unit {0}) × W
  submitted (err e, w) = (err (wrap "bqsink: submit load job" e), w)
  submitted (ok job, w) = waited (x.wait_job job w)

  -- runLoader
  unfoldable pub run_loader : Source → Exec W (Unit {0})
  run_loader source w = submitted (x.run_job source w)

  -- tableLoader.load
  unfoldable pub load_table : List ℕ → Exec W (Unit {0})
  load_table rows w = run_loader (rows_given rows) w

  abbrev finished : String → Result (Unit {0}) × W → Result String × W
  finished name (err e, w) = (err (wrap "bqgcs: finish writing" e), w)
  finished name (ok u, w) = (ok name, w)

  -- A write that failed closes the writer too, and that call's error is dropped.
  abbrev uploaded : String → Result (Unit {0}) × W → Result String × W
  uploaded name (err e, w) =
      let (r, w') = x.close_object name w in (err (wrap "bqgcs: write" e), w')
  uploaded name (ok u, w) = finished name (x.close_object name w)

  -- Staging.Stage
  unfoldable pub stage : Settings → String → List ℕ → Exec W String
  stage s name rows w = elim (validate_staging s) [
    | err e ↦ (err e, w)
    | ok u ↦ uploaded name (x.write_object name rows w)
  ]

  abbrev deleted : Result (Unit {0}) × W → Result (Unit {0}) × W
  deleted (ok u, w) = (ok tt, w)
  deleted (err e, w) = if x.is_not_exist e then (ok tt, w) else (err (wrap "bqgcs: delete" e), w)

  -- The cleanup that Stage returns.
  unfoldable pub clean_up : Settings → String → Exec W (Unit {0})
  clean_up s name w = if s.keep then (ok tt, w) else deleted (x.delete_object name w)

  abbrev warned : String → Result (Unit {0}) × W → W
  warned name (ok u, w) = w
  warned name (err e, w) = x.warn name e w

  -- The deferred cleanup: it runs after the job, and its failure is only logged.
  abbrev tidied : Settings → String → Result (Unit {0}) × W → Result (Unit {0}) × W
  tidied s name (r, w) = (r, warned name (clean_up s name w))

  abbrev loaded_from : Settings → Result String × W → Result (Unit {0}) × W
  loaded_from s (err e, w) = (err (wrap "bqsink: stage rows" e), w)
  loaded_from s (ok name, w) = tidied s name (run_loader (object_at name) w)

  -- stagedLoader.load, with this package's Staging
  unfoldable pub load_staged : Settings → String → List ℕ → Exec W (Unit {0})
  load_staged s name rows w = loaded_from s (stage s name rows w)
