-- ===== src/LoadJobs.antt =====
-- LoadJobsWriter of write.go: BindSchema, WriteRows, FlushRows and Close, with the writer that NewWriter
-- returns. A method is cut at the mutex: `enter_*` and `leave_*` are what it does under
-- the lock, before and after its load job; WriteRows, FlushRows and Close here run with no other
-- call in between. `flush_rows` is the writer's setting; `in_flight` is the WaitGroup.
pub mod Session
pub mod Bounds
pub mod Delivery
use bqsink.Common.{
  ℕ, suc, ◌+◌, ◌-◌, String, Bool, true, false, not, ◌&&◌, Option, none, some, List, [], ◌∷◌, ◌++◌,
  ◌==◌, leb, if◌then◌else◌, length, is_empty,
}
use bqsink.Fault.{Error, message, sentinel, writer_closed, wrap, joined, Result, ok, err}
use bqsink.Exec.{Exec}
use bqsink.Column.{Schema}

-- ResolvedResult: what a WriteResult's Wait returns.
pub record WriteResult : Type 0 where
  pub n : ℕ
  pub error : Option Error

pub record Writer (Row : Type 0) : Type 0 where
  pub flush_rows : ℕ
  pub schema : Option Schema
  pub buf : List Row
  pub pending : List Error
  pub closed : Bool
  pub in_flight : ℕ

abbrev pub refused_closed : Error
refused_closed = wrap "bqsink: LoadJobsWriter" (sentinel writer_closed)

abbrev pub not_landed : Error → Error
not_landed e = wrap "bqsink: row(s) did not land" e

-- errors.Join, which leaves nil out; nothing to join is no error
unfoldable pub join_errors : List Error → Option Error
join_errors [] = none
join_errors (e ∷ []) = some e
join_errors (e ∷ f ∷ es) = elim (join_errors (f ∷ es)) [
  | none ↦ some e
  | some r ↦ some (joined e r)
]

-- The error of a submission that FlushRows makes.
abbrev pub job_error : Result (Unit {0}) → Option Error
job_error (ok u) = none
job_error (err e) = some (not_landed e)

abbrev pub failure : Result (Unit {0}) → List Error
failure (ok u) = []
failure (err e) = not_landed e ∷ []

-- The error of FlushRows: what was pending and its own submission's.
unfoldable pub flush_error : List Error → Result (Unit {0}) → Option Error
flush_error [] r = job_error r
flush_error (p ∷ ps) r = join_errors ((p ∷ ps) ++ failure r)

-- What WriteRows has settled when it lets go of the lock.
pub data Entered (Row : Type 0) : Type 0 where
  refused : Error → Entered Row
  load_now : Schema → Entered Row
  held : Entered Row
  submit : List Row → Schema → Entered Row

module _ {Row : Type 0} where
  -- LoadJobs.NewWriter: a writer with no schema, no rows and nothing pending
  abbrev pub new_writer : ℕ → Writer Row
  new_writer n = record {
    flush_rows = n;
    schema = none;
    buf = [];
    pending = [];
    closed = false;
    in_flight = 0;
  }

  unfoldable pub bind_schema : Schema → Writer Row → Result (Unit {0}) × Writer Row
  bind_schema [] w = (err (message "bqsink: LoadJobsWriter: the schema has no columns"), w)
  bind_schema (f ∷ fs) w = elim w.schema [
    | some s ↦ (err (message "bqsink: LoadJobsWriter: a schema is already bound"), w)
    | none ↦ (ok tt, record w { schema = some (f ∷ fs) })
  ]

  -- The test of WriteRows after the append.
  abbrev fill : List Row → Schema → Writer Row → Entered Row × Writer Row
  fill buf s w =
      if leb w.flush_rows (length buf)
      then (submit buf s, record w { buf = []; in_flight = w.in_flight + 1 })
      else (held, record w { buf = buf })

  -- WriteRows up to the point where it releases the lock.
  unfoldable pub enter_write : List Row → Writer Row → Entered Row × Writer Row
  enter_write rows w = if w.closed then (refused refused_closed, w) else elim w.schema [
    | none ↦ (refused (message "bqsink: LoadJobsWriter: no schema is bound yet"), w)
    | some s ↦ if w.flush_rows == 0 then (load_now s, w) else fill (w.buf ++ rows) s w
  ]

  -- The failure of a submission that WriteRows made on its own is kept.
  unfoldable pub leave_write : Result (Unit {0}) → Writer Row → Writer Row
  leave_write r w = record w { pending = w.pending ++ failure r; in_flight = w.in_flight - 1 }

  -- FlushRows under the lock: the batch that it takes and the failures that it will report.
  unfoldable pub enter_flush : Writer Row → Result (List Row × List Error) × Writer Row
  enter_flush w = if w.closed then (err refused_closed, w) else (
    ok (w.buf, w.pending),
    record w {
      buf = [];
      pending = [];
      in_flight = if is_empty w.buf then w.in_flight else w.in_flight + 1;
    },
  )

  unfoldable pub leave_flush : Writer Row → Writer Row
  leave_flush w = record w { in_flight = w.in_flight - 1 }

  -- Close under its first lock, if the writer was open: the batch that it takes.
  unfoldable pub enter_close : Writer Row → Option (List Row) × Writer Row
  enter_close w = if w.closed then (none, w) else (some w.buf, record w { closed = true; buf = [] })

  -- Close under its second lock, after the wait for submissions in flight.
  unfoldable pub collect_pending : Writer Row → List Error × Writer Row
  collect_pending w = (w.pending, record w { pending = [] })

  module _ {W : Type 0} (load : List Row → Schema → Exec W (Unit {0})) where
    abbrev pub settle_write :
        List Row → Entered Row × Writer Row → W → Result WriteResult × Writer Row × W
    settle_write rows (refused e, w) x = (err e, w, x)
    settle_write rows (load_now s, w) x =
        let (r, x') = load rows s x in
        elim r [
          | ok u ↦ (ok (record { n = length rows; error = none }), w, x')
          | err e ↦ (ok (record { n = 0; error = some e }), w, x')
        ]
    settle_write rows (held, w) x = (ok (record { n = length rows; error = none }), w, x)
    settle_write rows (submit batch s, w) x =
        let (r, x') = load batch s x in
        (ok (record { n = length rows; error = none }), leave_write r w, x')

    unfoldable pub write_rows : List Row → Writer Row → W → Result WriteResult × Writer Row × W
    write_rows [] w x = (ok (record { n = 0; error = none }), w, x)
    write_rows (r ∷ rows) w x = settle_write (r ∷ rows) (enter_write (r ∷ rows) w) x

    -- The load of FlushRows and of Close: no job for an empty batch. Rows are buffered only once a
    -- schema is bound, so the batch of a writer with none is empty.
    unfoldable pub load_batch : List Row → Option Schema → W → Result (Unit {0}) × W
    load_batch [] s x = (ok tt, x)
    load_batch (r ∷ rows) none x = load (r ∷ rows) [] x
    load_batch (r ∷ rows) (some s) x = load (r ∷ rows) s x

    abbrev landed : List Row → Result (Unit {0}) → ℕ
    landed batch (ok u) = length batch
    landed batch (err e) = 0

    abbrev settle_flush :
        Result (List Row × List Error) × Writer Row → W → Result WriteResult × Writer Row × W
    settle_flush (err e, w) x = (err e, w, x)
    settle_flush (ok (batch, pending), w) x =
        let (r, x') = load_batch batch w.schema x in
        (
          ok (record { n = landed batch r; error = flush_error pending r }),
          if is_empty batch then w else leave_flush w,
          x',
        )

    unfoldable pub flush : Writer Row → W → Result WriteResult × Writer Row × W
    flush w x = settle_flush (enter_flush w) x

    abbrev settle_close : Option (List Row) × Writer Row → W → Option Error × Writer Row × W
    settle_close (none, w) x = (none, w, x)
    settle_close (some batch, w) x =
        let (pending, w') = collect_pending w in
        let (r, x') = load_batch batch w'.schema x in (join_errors (pending ++ failure r), w', x')

    unfoldable pub close : Writer Row → W → Option Error × Writer Row × W
    close w x = settle_close (enter_close w) x
