-- ===== src/LoadJobs/Session.antt =====
-- Calls made one after another on a new LoadJobsWriter, and what an observer of them collects: the
-- batches of the load jobs in their order, the rows that WriteRows took, the errors of failed jobs
-- and the errors that FlushRows and Close return.
use bqsink.Common.{ℕ, Option, none, some, List, [], ◌∷◌, ◌++◌}
use bqsink.Fault.{Error, joined, Result, ok, err}
use bqsink.Exec.{Exec}
use bqsink.Column.{Schema}
use bqsink.LoadJobs.{
  WriteResult, Writer, new_writer, bind_schema, write_rows, flush, close, failure,
}

pub data Call (Row : Type 0) : Type 0 where
  bind : Schema → Call Row
  write : List Row → Call Row
  flush_rows : Call Row
  close_writer : Call Row

-- The errors that a joined error holds.
abbrev pub parts_of : Error → List Error
parts_of (joined a b) = a ∷ parts_of b
parts_of e = e ∷ []

abbrev pub parts : Option Error → List Error
parts none = []
parts (some e) = parts_of e

-- The world of a load job with the observer's record of the jobs that were run.
pub record Traced (Row W : Type 0) : Type 0 where
  pub world : W
  pub loaded : List Row
  pub failed : List Error

pub record State (Row W : Type 0) : Type 0 where
  pub writer : Writer Row
  pub traced : Traced Row W
  pub taken : List Row
  pub reported : List Error

abbrev reported_by : Result WriteResult → List Error
reported_by (ok r) = parts r.error
reported_by (err e) = []

abbrev taken_by : {Row : Type 0} → List Row → Result WriteResult → List Row
taken_by rows (ok r) = rows
taken_by rows (err e) = []

module _ {Row W : Type 0} (load : List Row → Schema → Exec W (Unit {0})) where
  abbrev pub traced_load : List Row → Schema → Exec (Traced Row W) (Unit {0})
  traced_load rows s t =
      let (r, x) = load rows s t.world in
      (r, record { world = x; loaded = t.loaded ++ rows; failed = t.failed ++ failure r })

  unfoldable pub step : State Row W → Call Row → State Row W
  step s (bind schema) = record s { writer = (bind_schema schema s.writer).1 }
  step s (write rows) =
      let (r, w, t) = write_rows traced_load rows s.writer s.traced in
      record s { writer = w; traced = t; taken = s.taken ++ taken_by rows r }
  step s flush_rows =
      let (r, w, t) = flush traced_load s.writer s.traced in
      record s { writer = w; traced = t; reported = s.reported ++ reported_by r }
  step s close_writer =
      let (e, w, t) = close traced_load s.writer s.traced in
      record s { writer = w; traced = t; reported = s.reported ++ parts e }

  unfoldable pub run : State Row W → List (Call Row) → State Row W
  run s [] = s
  run s (c ∷ cs) = run (step s c) cs

  -- What every call keeps, holds after any calls.
  pub run_induction :
      (P : State Row W → Type 0)
      → ((s : State Row W) (c : Call Row) → P s → P (step s c))
      → (s : State Row W) (cs : List (Call Row)) → P s
      → P (run s cs)
  unfolding run
  run_induction P keep s [] h = h
  run_induction P keep s (c ∷ cs) h = run_induction P keep (step s c) cs (keep s c h)

abbrev pub start : {Row W : Type 0} → ℕ → W → State Row W
start n x = record {
  writer = new_writer n;
  traced = record { world = x; loaded = []; failed = [] };
  taken = [];
  reported = [];
}
