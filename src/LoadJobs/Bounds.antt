-- ===== src/LoadJobs/Bounds.antt =====
-- The rows that a LoadJobsWriter holds back.
use bqsink.Common.{ℕ, ◌<◌, ◌≡◌, ◌⊎◌, inl, refl, true, none, List, [], ◌∷◌, arith, length}
use bqsink.Exec.{Exec}
use bqsink.Column.{Schema}
use bqsink.LoadJobs.{
  Writer, bind_schema, enter_write, leave_write, enter_flush, leave_flush, enter_close,
  collect_pending, write_rows, flush, close,
}
use bqsink.LoadJobs.Session.{
  Call, bind, write, flush_rows, close_writer, State, traced_load, step, run, start, run_induction,
}

-- Fewer rows than FlushRows are held, none if it is unset, none before a schema is bound or once the
-- writer is closed; nothing is pending then; and no submission is counted as in flight between calls.
pub record IsBounded {Row : Type 0} (w : Writer Row) : Type 0 where
  pub below : (w.buf ≡ []) ⊎ (length w.buf < w.flush_rows)
  pub unbound : w.schema ≡ none → w.buf ≡ []
  pub shut : w.closed ≡ true → w.buf ≡ []
  pub drained : w.closed ≡ true → w.pending ≡ []
  pub settled : w.in_flight ≡ 0

module _ {Row W : Type 0} (load : List Row → Schema → Exec W (Unit {0})) where
  write_rows-IsBounded :
      (rows : List Row) (w : Writer Row) (x : W)
      → IsBounded w
      → IsBounded (write_rows load rows w x).1
  unfolding write_rows enter_write leave_write
  write_rows-IsBounded [] w x b = b
  write_rows-IsBounded (r ∷ rows) w x b = ground (arith, b.unbound, b.shut, b.drained)

  flush-IsBounded : (w : Writer Row) (x : W) → IsBounded w → IsBounded (flush load w x).1
  unfolding flush enter_flush leave_flush
  flush-IsBounded w x b = ground (arith, b.unbound, b.shut, b.drained)

  close-IsBounded : (w : Writer Row) (x : W) → IsBounded w → IsBounded (close load w x).1
  unfolding close enter_close collect_pending
  close-IsBounded w x b = ground (arith, b.unbound, b.shut, b.drained)

bind-IsBounded :
    {Row : Type 0} (schema : Schema) (w : Writer Row)
    → IsBounded w
    → IsBounded (bind_schema schema w).1
unfolding bind_schema
bind-IsBounded [] w b = b
bind-IsBounded (f ∷ fs) w b = ground (arith, b.unbound, b.shut, b.drained)

module _ {Row W : Type 0} (load : List Row → Schema → Exec W (Unit {0})) where
  pub step-IsBounded :
      (s : State Row W) (c : Call Row) → IsBounded s.writer → IsBounded (step load s c).writer
  unfolding step
  step-IsBounded s (bind schema) b = bind-IsBounded schema s.writer b
  step-IsBounded s (write rows) b = write_rows-IsBounded (traced_load load) rows s.writer s.traced b
  step-IsBounded s flush_rows b = flush-IsBounded (traced_load load) s.writer s.traced b
  step-IsBounded s close_writer b = close-IsBounded (traced_load load) s.writer s.traced b

  -- After any calls on a new writer, whatever the load jobs do: the buffer is empty or holds fewer
  -- rows than FlushRows, it is empty while no schema is bound, a closed writer has no rows in it and
  -- no pending error, and no submission is left counted as in flight.
  pub run-IsBounded :
      (n : ℕ) (x : W) (cs : List (Call Row)) → IsBounded (run load (start n x) cs).writer
  run-IsBounded n x cs =
      run_induction load (λ s. IsBounded s.writer) step-IsBounded (start n x) cs
        (record {
          below = inl refl;
          unbound = λ e. refl;
          shut = λ e. refl;
          drained = λ e. refl;
          settled = refl;
        })
