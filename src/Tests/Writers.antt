-- ===== src/Tests/Writers.antt =====
-- A LoadJobsWriter whose load jobs fail once.
use bqsink.Common.{ℕ, ◌+◌, ◌≡◌, refl, none, List, [], ◌∷◌, ◌++◌, arith, ◌==◌, if◌then◌else◌}
use bqsink.Fault.{message, ok, err}
use bqsink.Exec.{Exec}
use bqsink.Column.{Schema}
use bqsink.LoadJobs.{
  refused_closed, not_landed, write_rows, flush, close, bind_schema, enter_write, leave_write,
  enter_flush, leave_flush, load_batch, join_errors, flush_error,
}
use bqsink.LoadJobs.Session.{Call, bind, write, flush_rows, close_writer, step, run, start}
use bqsink.LoadJobs.Bounds.{IsBounded, run-IsBounded}
use bqsink.LoadJobs.Delivery.{run-rows, run-errors, close_settles}
use bqsink.Tests.Schemas.{declared}

-- The world counts the jobs; the first one fails.
abbrev flaky : List ℕ → Schema → Exec ℕ (Unit {0})
flaky rows s n = if n == 0 then (err (message "down"), 1) else (ok tt, n + 1)

abbrev calls : List (Call ℕ)
calls = bind declared ∷ write (1 ∷ 2 ∷ 3 ∷ []) ∷ write (4 ∷ []) ∷ flush_rows ∷ write (5 ∷ []) ∷ []

session :
    ((run flaky (start 2 0) calls).traced.loaded ≡ 1 ∷ 2 ∷ 3 ∷ 4 ∷ [])
    × ((run flaky (start 2 0) calls).writer.buf ≡ 5 ∷ [])
    × ((run flaky (start 2 0) calls).reported ≡ not_landed (message "down") ∷ [])
unfolding run step bind_schema write_rows enter_write leave_write flush enter_flush leave_flush
    load_batch flush_error join_errors
session = (refl, refl, refl)

run-IsBounded_example : IsBounded (run flaky (start 2 0) calls).writer
run-IsBounded_example = run-IsBounded flaky 2 0 calls

run-rows_example :
    (run flaky (start 2 0) calls).traced.loaded ++ (run flaky (start 2 0) calls).writer.buf
    ≡ (run flaky (start 2 0) calls).taken
run-rows_example = run-rows flaky 2 0 calls (omega arith)

run-errors_example :
    (run flaky (start 2 0) calls).reported ++ (run flaky (start 2 0) calls).writer.pending
    ≡ (run flaky (start 2 0) calls).traced.failed
run-errors_example = run-errors flaky 2 0 calls (omega arith)

close_settles_example :
    let s = step flaky (run flaky (start 2 0) calls) close_writer in
    (s.traced.loaded ≡ s.taken)
    × (s.reported ≡ s.traced.failed)
    × (write_rows flaky (9 ∷ 8 ∷ []) s.writer s.traced.world
        ≡ (err refused_closed, s.writer, s.traced.world))
    × (write_rows flaky [] s.writer s.traced.world
        ≡ (ok (record { n = 0; error = none }), s.writer, s.traced.world))
    × (flush flaky s.writer s.traced.world ≡ (err refused_closed, s.writer, s.traced.world))
    × (close flaky s.writer s.traced.world ≡ (none, s.writer, s.traced.world))
close_settles_example = close_settles flaky 2 0 calls 9 (8 ∷ []) (omega arith)
