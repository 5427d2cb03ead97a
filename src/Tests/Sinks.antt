-- ===== src/Tests/Sinks.antt =====
-- A Sinker over a world that counts its migrations; its writer reports one row too few at first.
use bqsink.Common.{
  ℕ, suc, ◌≤◌, ◌≡◌, ◌⊎◌, refl, true, none, some, [], ◌∷◌, length, ◌==◌, if◌then◌else◌,
}
use bqsink.Fault.{Error, message, Result, ok, err}
use bqsink.Sinker.{
  Batch, single, slice, Calls, Sinker, sink, send, rows_of, batch_row_type, same_types, start,
  reconcile, deliver, prepare_all, prepare,
}
use bqsink.Sinker.Counting.{size, sink-counts}
use bqsink.Sinker.Once.{Counts, sinks, sinks-migrate_once, sink-stays_failed}
use bqsink.Tests.Schemas.{declared}

-- The world is the number of migrations; a handle is the number of rows that the writer took.
abbrev counting : Calls ℕ ℕ ℕ ℕ
counting = record {
  type_of = λ v. if v == 9 then 1 else 0;
  is_nil = λ v. v == 0;
  new_id = λ w. (ok "id", w);
  fill_row = λ id v w. (ok v, w);
  is_filler = λ v. true;
  marshal_row = λ v. ok v;
  migrate = λ w. (ok tt, suc w);
  bind_schema = λ fs w. (ok tt, w);
  write_rows = λ rows w. (ok (some (length rows)), w);
  wait = λ h w. ((if h == 3 then 2 else h, none), w);
}

counting-Counts : Counts counting (λ w. w)
counting-Counts = record {
  migrates = λ w. refl;
  binds = λ fs w. refl;
  ids = λ w. refl;
  fills = λ id v w. refl;
  writes = λ rows w. refl;
  waits = λ h w. refl;
}

abbrev fresh : Sinker
fresh = record { row_type = 0; fills = true; connected = true; schema = declared; started = none }

abbrev after : Sinker
after = record fresh { started = some (ok tt) }

abbrev two_rows : Batch ℕ
two_rows = slice (some 5 ∷ some 6 ∷ [])

sink_tests :
    (sink counting two_rows fresh 0 ≡ ((2, none), after, 1))
    × ((sink counting (slice (some 5 ∷ some 9 ∷ [])) fresh 0).2 ≡ 0)
    × ((sink counting (slice (some 5 ∷ some 6 ∷ some 7 ∷ [])) after 1).0
        ≡ (2, some (message "bqsink: rows were not written but no error was reported")))
unfolding sink send rows_of batch_row_type same_types start reconcile deliver prepare_all prepare
sink_tests = (refl, refl, refl)

sinks_test : sinks counting (two_rows ∷ single 7 ∷ two_rows ∷ []) fresh 0 ≡ (after, 1)
unfolding sinks sink send rows_of batch_row_type same_types start reconcile deliver prepare_all
    prepare
sinks_test = refl

sink-counts_example : 2 ≡ size two_rows
sink-counts_example = sink-counts counting two_rows fresh after 0 1 2 (sink_tests.0)

sinks-migrate_once_example :
    (fresh.started ≡ none → (sinks counting (two_rows ∷ single 7 ∷ []) fresh 0).1 ≤ 1)
    × ((outcome : Result (Unit {0}))
        → fresh.started ≡ some outcome
        → (sinks counting (two_rows ∷ single 7 ∷ []) fresh 0).1 ≤ 0)
sinks-migrate_once_example =
    sinks-migrate_once counting (λ w. w) counting-Counts (two_rows ∷ single 7 ∷ []) fresh 0

abbrev failed : Sinker
failed = record fresh { started = some (err (message "denied")) }

sink-stays_failed_example :
    ((two_rows ≡ slice []) × (sink counting two_rows failed 1 ≡ ((0, none), failed, 1)))
    ⊎ ((x : Error) × (sink counting two_rows failed 1 ≡ ((0, some x), failed, 1)))
sink-stays_failed_example = sink-stays_failed counting two_rows failed 1 (message "denied") refl
