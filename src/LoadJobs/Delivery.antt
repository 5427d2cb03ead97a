-- ===== src/LoadJobs/Delivery.antt =====
-- What becomes of the rows that a LoadJobsWriter takes, and of the errors of its load jobs.
use bqsink.Common.{
  ℕ, ◌<◌, ◌≡◌, inl, inr, refl, ap, ◌∙◌, sym, subst, true, Option, none, some, List, [], ◌∷◌, ◌++◌,
  arith, Bool-cases, All, All-append, append-nil, append_assoc,
}
use bqsink.Fault.{Error, joined, Result, ok, err}
use bqsink.Exec.{Exec}
use bqsink.Column.{Schema}
use bqsink.LoadJobs.{
  Writer, bind_schema, enter_write, leave_write, enter_flush, leave_flush, enter_close,
  collect_pending, write_rows, flush, close, load_batch, join_errors, flush_error, failure,
  refused_closed, Entered, refused, load_now, held, submit, settle_write,
}
use bqsink.LoadJobs.Session.{
  Call, bind, write, flush_rows, close_writer, Traced, State, traced_load, step, run, start,
  run_induction, parts, parts_of,
}
use bqsink.LoadJobs.Bounds.{IsBounded, step-IsBounded}

-- Not a joined error.
abbrev IsSingle : Error → Type 0
IsSingle e = parts_of e ≡ e ∷ []

parts-join_errors : (es : List Error) → All IsSingle es → parts (join_errors es) ≡ es
unfolding join_errors
parts-join_errors [] h = refl
parts-join_errors (e ∷ []) h = h.0
parts-join_errors (e ∷ f ∷ es) h = go (join_errors (f ∷ es)) (parts-join_errors (f ∷ es) h.1)
  where
    go :
        (o : Option Error)
        → parts o ≡ f ∷ es
        → parts (elim o [ none ↦ some e | some r ↦ some (joined e r) ]) ≡ e ∷ f ∷ es
    go none k = cc
    go (some r) k = ap (λ l. e ∷ l) k

failure-IsSingle : (r : Result (Unit {0})) → All IsSingle (failure r)
failure-IsSingle (ok u) = tt
failure-IsSingle (err e) = (refl, tt)

parts-flush_error :
    (pending : List Error) (r : Result (Unit {0}))
    → All IsSingle pending
    → parts (flush_error pending r) ≡ pending ++ failure r
unfolding flush_error
parts-flush_error [] (ok u) h = refl
parts-flush_error [] (err e) h = refl
parts-flush_error (p ∷ ps) r h =
    parts-join_errors ((p ∷ ps) ++ failure r)
      (All-append IsSingle (p ∷ ps) (failure r) h (failure-IsSingle r))

module _ {Row W : Type 0} (load : List Row → Schema → Exec W (Unit {0})) where
  -- Every row that WriteRows took was handed to a load job or is still in the buffer, in the order in
  -- which it was taken.
  abbrev KeepsRows : State Row W → Type 0
  KeepsRows s = s.traced.loaded ++ s.writer.buf ≡ s.taken

  load_batch-loaded :
      (batch : List Row) (o : Option Schema) (t : Traced Row W)
      → (load_batch (traced_load load) batch o t).1.loaded ≡ t.loaded ++ batch
  unfolding load_batch
  load_batch-loaded [] o t = sym (append-nil t.loaded)
  load_batch-loaded (r ∷ rows) none t = refl
  load_batch-loaded (r ∷ rows) (some s) t = refl

  load_batch-failed :
      (batch : List Row) (o : Option Schema) (t : Traced Row W)
      → (load_batch (traced_load load) batch o t).1.failed
        ≡ t.failed ++ failure (load_batch (traced_load load) batch o t).0
  unfolding load_batch
  load_batch-failed [] o t = sym (append-nil t.failed)
  load_batch-failed (r ∷ rows) none t = refl
  load_batch-failed (r ∷ rows) (some s) t = refl

  write-KeepsRows :
      (rows : List Row) (s : State Row W)
      → IsBounded s.writer
      → KeepsRows s
      → KeepsRows (step load s (write rows))
  unfolding step write_rows enter_write leave_write
  write-KeepsRows [] s b h = ground (arith, append-nil s.taken)
  write-KeepsRows (r ∷ rows) s b h = ground (
    arith,
    append_assoc s.traced.loaded s.writer.buf (r ∷ rows),
    append-nil (s.traced.loaded ++ (s.writer.buf ++ r ∷ rows)),
    append-nil (s.traced.loaded ++ r ∷ rows),
    append-nil s.traced.loaded,
    append-nil s.taken,
  )

  flush-KeepsRows : (s : State Row W) → KeepsRows s → KeepsRows (step load s flush_rows)
  unfolding step flush enter_flush leave_flush
  flush-KeepsRows s h = ground (
    arith,
    load_batch-loaded s.writer.buf s.writer.schema s.traced,
    append-nil (s.traced.loaded ++ s.writer.buf),
  )

  close-KeepsRows :
      (s : State Row W) → IsBounded s.writer → KeepsRows s → KeepsRows (step load s close_writer)
  unfolding step close enter_close collect_pending
  close-KeepsRows s b h = ground (
    arith,
    load_batch-loaded s.writer.buf s.writer.schema s.traced,
    append-nil (s.traced.loaded ++ s.writer.buf),
  )

  bind-KeepsRows :
      (schema : Schema) (s : State Row W) → KeepsRows s → KeepsRows (step load s (bind schema))
  unfolding step bind_schema
  bind-KeepsRows [] s h = h
  bind-KeepsRows (f ∷ fs) s h = ground arith

  -- Every error of a load job was returned by FlushRows or Close or is still pending, once each and
  -- in the order of the jobs.
  record KeepsErrors (n : ℕ) (s : State Row W) : Type 0 where
    setting : s.writer.flush_rows ≡ n
    single : All IsSingle s.writer.pending
    accounted : s.reported ++ s.writer.pending ≡ s.traced.failed

  -- What a call adds to the pending errors are the errors of its jobs.
  abbrev Adds : List Error → Traced Row W → Writer Row → Traced Row W → Type 0
  Adds pending t w t' =
      (more : List Error) × (w.pending ≡ pending ++ more)
      × (t'.failed ≡ t.failed ++ more)
      × All IsSingle more

  abbrev IsBuffered : Entered Row → Type 0
  IsBuffered (load_now s) = ⊥
  IsBuffered (refused e) = Unit
  IsBuffered held = Unit
  IsBuffered (submit batch s) = Unit

  settle-Adds :
      (rows : List Row) (p : Entered Row × Writer Row) (t : Traced Row W)
      → IsBuffered p.0
      → Adds p.1.pending t
          (settle_write (traced_load load) rows p t).1
          (settle_write (traced_load load) rows p t).2
  unfolding leave_write
  settle-Adds rows (refused e, w) t b = ([], sym (append-nil _), sym (append-nil _), tt)
  settle-Adds rows (load_now s, w) t b = absurd b
  settle-Adds rows (held, w) t b = ([], sym (append-nil _), sym (append-nil _), tt)
  settle-Adds rows (submit batch s, w) t b =
      (failure (load batch s t.world).0, refl, refl, failure-IsSingle (load batch s t.world).0)

  Adds-KeepsErrors :
      (n : ℕ) (s : State Row W) (w : Writer Row) (t : Traced Row W) (taken : List Row)
      → KeepsErrors n s
      → w.flush_rows ≡ s.writer.flush_rows
      → Adds s.writer.pending s.traced w t
      → KeepsErrors n (record s { writer = w; traced = t; taken = taken })
  Adds-KeepsErrors n s w t taken k same (more, added, failed, single) = record {
    setting = same ∙ k.setting;
    single = rw added (All-append IsSingle s.writer.pending more k.single single);
    accounted =
        rw (added, failed)
          (sym (append_assoc s.reported s.writer.pending more) ∙ ap (λ l. l ++ more) k.accounted);
  }

  enter_write-IsBuffered :
      (rows : List Row) (w : Writer Row)
      → 0 < w.flush_rows
      → IsBuffered (enter_write rows w).0
        × ((enter_write rows w).1.pending ≡ w.pending)
        × ((enter_write rows w).1.flush_rows ≡ w.flush_rows)
  unfolding enter_write
  enter_write-IsBuffered rows w p = (ground arith, ground arith, ground arith)

  settle-setting :
      (rows : List Row) (p : Entered Row × Writer Row) (t : Traced Row W)
      → (settle_write (traced_load load) rows p t).1.flush_rows ≡ p.1.flush_rows
  unfolding leave_write
  settle-setting rows (refused e, w) t = refl
  settle-setting rows (load_now s, w) t = ground arith
  settle-setting rows (held, w) t = refl
  settle-setting rows (submit batch s, w) t = refl

  write-KeepsErrors :
      (n : ℕ) (rows : List Row) (s : State Row W)
      → 0 < n
      → KeepsErrors n s
      → KeepsErrors n (step load s (write rows))
  unfolding step write_rows
  write-KeepsErrors n [] s p k = record {
    setting = k.setting;
    single = k.single;
    accounted = k.accounted;
  }
  write-KeepsErrors n (r ∷ rows) s p k =
      let (b, same, kept) = enter_write-IsBuffered (r ∷ rows) s.writer (omega (arith, k.setting)) in
      let entered = enter_write (r ∷ rows) s.writer in
      Adds-KeepsErrors n s _ _ _ k (settle-setting (r ∷ rows) entered s.traced ∙ kept) (
        subst
          (λ q.
            Adds q s.traced (settle_write (traced_load load) (r ∷ rows) entered s.traced).1
              (settle_write (traced_load load) (r ∷ rows) entered s.traced).2)
          same (settle-Adds (r ∷ rows) entered s.traced b))

  flush-KeepsErrors :
      (n : ℕ) (s : State Row W) → KeepsErrors n s → KeepsErrors n (step load s flush_rows)
  unfolding step flush enter_flush leave_flush
  flush-KeepsErrors n s k = elim (Bool-cases s.writer.closed) [
    | inl shut ↦ record {
      setting = rw shut k.setting;
      single = rw shut k.single;
      accounted = rw shut (append_assoc s.reported [] s.writer.pending ∙ k.accounted);
    }
    | inr open_ ↦
        let (r, t) = load_batch (traced_load load) s.writer.buf s.writer.schema s.traced in
        record {
          setting = ground arith;
          single = ground arith;
          accounted =
              rw (open_, load_batch-failed s.writer.buf s.writer.schema s.traced)
                (ground (
                  arith,
                  k.accounted,
                  parts-flush_error s.writer.pending r k.single,
                  append_assoc s.reported s.writer.pending (failure r),
                  append-nil (s.reported ++ (s.writer.pending ++ failure r)),
                ));
        }
  ]

  close-KeepsErrors :
      (n : ℕ) (s : State Row W) → KeepsErrors n s → KeepsErrors n (step load s close_writer)
  unfolding step close enter_close collect_pending
  close-KeepsErrors n s k = elim (Bool-cases s.writer.closed) [
    | inl shut ↦ record {
      setting = rw shut k.setting;
      single = rw shut k.single;
      accounted = rw shut (append_assoc s.reported [] s.writer.pending ∙ k.accounted);
    }
    | inr open_ ↦
        let (r, t) = load_batch (traced_load load) s.writer.buf s.writer.schema s.traced in
        let all = s.writer.pending ++ failure r in
        record {
          setting = ground arith;
          single = ground arith;
          accounted =
              rw (open_, load_batch-failed s.writer.buf s.writer.schema s.traced)
                (ground (
                  arith,
                  k.accounted,
                  parts-join_errors all (
                      All-append IsSingle s.writer.pending (failure r) k.single
                        (failure-IsSingle r)),
                  append_assoc s.reported s.writer.pending (failure r),
                  append-nil (s.reported ++ (s.writer.pending ++ failure r)),
                ));
        }
  ]

  bind-KeepsErrors :
      (n : ℕ) (schema : Schema) (s : State Row W)
      → KeepsErrors n s
      → KeepsErrors n (step load s (bind schema))
  unfolding step bind_schema
  bind-KeepsErrors n [] s k = record {
    setting = k.setting;
    single = k.single;
    accounted = k.accounted;
  }
  bind-KeepsErrors n (f ∷ fs) s k = record {
    setting = ground arith;
    single = ground arith;
    accounted = ground arith;
  }

  record IsFaithful (n : ℕ) (s : State Row W) : Type 0 where
    bounded : IsBounded s.writer
    rows : KeepsRows s
    errors : KeepsErrors n s

  step-IsFaithful :
      (n : ℕ)
      → 0 < n
      → (s : State Row W) (c : Call Row) → IsFaithful n s
      → IsFaithful n (step load s c)
  step-IsFaithful n p s c f = record {
    bounded = step-IsBounded load s c f.bounded;
    rows = rows c;
    errors = errors c;
  }
    where
      rows : (c : Call Row) → KeepsRows (step load s c)
      rows (bind schema) = bind-KeepsRows schema s f.rows
      rows (write rs) = write-KeepsRows rs s f.bounded f.rows
      rows flush_rows = flush-KeepsRows s f.rows
      rows close_writer = close-KeepsRows s f.bounded f.rows

      errors : (c : Call Row) → KeepsErrors n (step load s c)
      errors (bind schema) = bind-KeepsErrors n schema s f.errors
      errors (write rs) = write-KeepsErrors n rs s p f.errors
      errors flush_rows = flush-KeepsErrors n s f.errors
      errors close_writer = close-KeepsErrors n s f.errors

  run-IsFaithful :
      (n : ℕ) (x : W) (cs : List (Call Row)) → 0 < n → IsFaithful n (run load (start n x) cs)
  run-IsFaithful n x cs p =
      run_induction load (IsFaithful n) (step-IsFaithful n p) (start n x) cs (record {
        bounded = record {
          below = inl refl;
          unbound = λ e. refl;
          shut = λ e. refl;
          drained = λ e. refl;
          settled = refl;
        };
        rows = refl;
        errors = record { setting = refl; single = tt; accounted = refl };
      })

  -- After any calls on a new writer that buffers, whatever its load jobs do: the rows of the jobs that
  -- were run, followed by the rows in the buffer, are the rows that WriteRows took, in the order in
  -- which it took them, each once.
  pub run-rows :
      (n : ℕ) (x : W) (cs : List (Call Row))
      → 0 < n
      → (run load (start n x) cs).traced.loaded ++ (run load (start n x) cs).writer.buf
        ≡ (run load (start n x) cs).taken
  run-rows n x cs p = (run-IsFaithful n x cs p).rows

  -- After any calls on a new writer that buffers, one after another: the errors that FlushRows and
  -- Close returned, followed by those still pending, are the errors of the load jobs that failed, in
  -- the order of the jobs, each once.
  pub run-errors :
      (n : ℕ) (x : W) (cs : List (Call Row))
      → 0 < n
      → (run load (start n x) cs).reported ++ (run load (start n x) cs).writer.pending
        ≡ (run load (start n x) cs).traced.failed
  run-errors n x cs p = (run-IsFaithful n x cs p).errors.accounted

  close-closed : (s : State Row W) → (step load s close_writer).writer.closed ≡ true
  unfolding step close enter_close collect_pending
  close-closed s = ground arith

  -- On a writer that buffers, Close leaves nothing over: after any calls and then Close, the rows of
  -- the jobs that were run are the rows that WriteRows took, and the errors that FlushRows and Close
  -- returned are those of the jobs that failed, each in order. WriteRows of any rows at all and FlushRows
  -- then fail with ErrWriterClosed, WriteRows of no rows reports none and no error, a second Close
  -- returns no error, and none of them runs a job or changes the writer.
  pub close_settles :
      (n : ℕ) (x : W) (cs : List (Call Row)) (row : Row) (rows : List Row)
      → 0 < n
      → let s = step load (run load (start n x) cs) close_writer in
        (s.traced.loaded ≡ s.taken)
        × (s.reported ≡ s.traced.failed)
        × (write_rows load (row ∷ rows) s.writer s.traced.world
            ≡ (err refused_closed, s.writer, s.traced.world))
        × (write_rows load [] s.writer s.traced.world
            ≡ (ok (record { n = 0; error = none }), s.writer, s.traced.world))
        × (flush load s.writer s.traced.world ≡ (err refused_closed, s.writer, s.traced.world))
        × (close load s.writer s.traced.world ≡ (none, s.writer, s.traced.world))
  unfolding write_rows flush close enter_write enter_flush enter_close
  close_settles n x cs row rows p =
      let s = step load (run load (start n x) cs) close_writer in
      let f =
        step-IsFaithful n p (run load (start n x) cs) close_writer (run-IsFaithful n x cs p) in
      let shut = close-closed (run load (start n x) cs) in
      (
        sym (append-nil s.traced.loaded)
            ∙ ap (λ l. s.traced.loaded ++ l) (sym (f.bounded.shut shut))
            ∙ f.rows,
        sym (append-nil s.reported)
            ∙ ap (λ l. s.reported ++ l) (sym (f.bounded.drained shut))
            ∙ f.errors.accounted,
        rw shut,
        refl,
        rw shut,
        rw shut,
      )
