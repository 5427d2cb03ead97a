-- ===== src/Sinker.antt =====
-- A Sinker's side of a write, of bqsink.go: rowsOf, batchRowType, start, prepare, send, Sink and
-- SinkAsync. Reflection on rows, the migration with its retries and the RowsWriter are a record of
-- calls on a world. `started` is startOnce with startErr: what the one start came to.
pub mod Once
pub mod Counting
use bqsink.Common.{
  ℕ, suc, String, Bool, true, false, Option, none, some, List, [], ◌∷◌, ◌==◌, if◌then◌else◌, length,
}
use bqsink.Fault.{Error, message, Result, ok, err}
use bqsink.Exec.{Exec, pure, fail, lift, wrapping, ◌>>=◌, ◌>>◌}
use bqsink.Column.{Schema}
use bqsink.LoadJobs.{WriteResult}

-- What Sink is handed: nil, a single row, or a slice, whose elements may be nil.
pub data Batch (V : Type 0) : Type 0 where
  nil_batch : Batch V
  single : V → Batch V
  slice : List (Option V) → Batch V

pub record Row (C : Type 0) : Type 0 where
  pub id : String
  pub values : C

-- A WriteResult that is already resolved, or the one that the writer gave.
pub data Handed (H : Type 0) : Type 0 where
  resolved : WriteResult → Handed H
  handed : H → Handed H

pub record Calls (V C H W : Type 0) : Type 0 where
  -- the row's reflect.Type
  pub type_of : V → ℕ
  -- a pointer that is nil
  pub is_nil : V → Bool
  pub new_id : Exec W String
  -- FillRow on the row that `fillable` gives, with the row's id
  pub fill_row : String → V → Exec W V
  -- the row that `fillable` gives is a RowFiller
  pub is_filler : V → Bool
  pub marshal_row : V → Result C
  -- retrying(ctx, s.logger, "migrate", s.migrationRetry, s.migrate)
  pub migrate : Exec W (Unit {0})
  pub bind_schema : Schema → Exec W (Unit {0})
  -- the writer's result, which may be nil
  pub write_rows : List (Row C) → Exec W (Option H)
  pub wait : H → W → (ℕ × Option Error) × W

pub record Sinker : Type 0 where
  pub row_type : ℕ
  pub fills : Bool
  pub connected : Bool
  pub schema : Schema
  pub started : Option (Result (Unit {0}))

module _ {V : Type 0} where
  elements : List (Option V) → Result (List V)
  elements [] = ok []
  elements (none ∷ vs) = err (message "bqsink: a row is nil")
  elements (some v ∷ vs) = elim (elements vs) [ ok rest ↦ ok (v ∷ rest) | err e ↦ err e ]

  unfoldable pub rows_of : Batch V → Result (List V)
  unfolding elements
  rows_of nil_batch = err (message "bqsink: rows is nil")
  rows_of (single v) = ok (v ∷ [])
  rows_of (slice vs) = elements vs

-- A writer that reports another number of rows owes an error.
abbrev pub accounted : ℕ → ℕ → Option Error → Option Error
accounted n sent (some e) = some e
accounted n sent none =
    if n == sent
    then none
    else some (message "bqsink: rows were not written but no error was reported")

module _ {V C H W : Type 0} (k : Calls V C H W) where
  unfoldable pub same_types : ℕ → List V → Bool
  same_types t [] = true
  same_types t (v ∷ vs) = let rest = same_types t vs in if k.type_of v == t then rest else false

  unfoldable pub batch_row_type : V → List V → Result ℕ
  batch_row_type v vs =
      if same_types (k.type_of v) vs
      then ok (k.type_of v)
      else err (message "bqsink: every row in a batch has to be of one type")

  -- What startOnce runs.
  unfoldable pub reconcile : Sinker → Exec W (Unit {0})
  reconcile s = do if s.connected then k.migrate else pure tt; k.bind_schema s.schema

  unfoldable pub start : Sinker → W → Result (Unit {0}) × Sinker × W
  start s w = elim s.started [
    | some outcome ↦ (outcome, s, w)
    | none ↦ let (r, w') = reconcile s w in (r, record s { started = some r }, w')
  ]

  abbrev pub fill_in : String → V → Exec W V
  fill_in id v =
      if k.is_filler v
      then wrapping "bqsink: fill a row" (k.fill_row id v)
      else fail (message "bqsink: the row no longer implements RowFiller")

  unfoldable pub prepare : Bool → V → Exec W (Row C)
  prepare fills v = do
    id ← wrapping "bqsink" k.new_id
    if k.is_nil v then fail (message "bqsink: cannot write a nil row") else pure tt
    rv ← if fills then fill_in id v else pure v
    values ← lift (k.marshal_row rv)
    pure (record { id = id; values = values })

  unfoldable pub prepare_all : Bool → List V → Exec W (List (Row C))
  prepare_all fills [] = pure []
  prepare_all fills (v ∷ vs) = do
    row ← prepare fills v
    rows ← prepare_all fills vs
    pure (row ∷ rows)

  abbrev handed_over : ℕ → Option H → Result (Handed H × ℕ)
  handed_over sent none = err (message "bqsink: the writer returned neither a result nor an error")
  handed_over sent (some h) = ok (handed h, sent)

  unfoldable pub deliver : Bool → List V → Exec W (Handed H × ℕ)
  deliver fills vs = do
    out ← prepare_all fills vs
    result ← k.write_rows out
    lift (handed_over (length out) result)

  -- send once the table is reconciled
  abbrev pub after_start :
      List V → Result (Unit {0}) × Sinker × W → Result (Handed H × ℕ) × Sinker × W
  after_start vs (err e, s, w) = (err e, s, w)
  after_start vs (ok u, s, w) = let (r, w') = deliver s.fills vs w in (r, s, w')

  abbrev pub of_type : List V → Result ℕ → Sinker → W → Result (Handed H × ℕ) × Sinker × W
  of_type vs (err e) s w = (err e, s, w)
  of_type vs (ok t) s w =
      if t == s.row_type
      then after_start vs (start s w)
      else (err (message "bqsink: this Sinker writes another type"), s, w)

  abbrev pub send_rows : Result (List V) → Sinker → W → Result (Handed H × ℕ) × Sinker × W
  send_rows (err e) s w = (err e, s, w)
  send_rows (ok []) s w = (ok (resolved (record { n = 0; error = none }), 0), s, w)
  send_rows (ok (v ∷ vs)) s w = of_type (v ∷ vs) (batch_row_type v vs) s w

  unfoldable pub send : Batch V → Sinker → W → Result (Handed H × ℕ) × Sinker × W
  send b s w = send_rows (rows_of b) s w

  -- SinkAsync: the result without the count
  unfoldable pub sink_async : Batch V → Sinker → W → Result (Handed H) × Sinker × W
  sink_async b s w =
      let (r, s', w') = send b s w in (elim r [ ok p ↦ ok (p.0) | err e ↦ err e ], s', w')

  abbrev wait_for : Handed H → W → (ℕ × Option Error) × W
  wait_for (resolved r) w = ((r.n, r.error), w)
  wait_for (handed h) w = k.wait h w

  abbrev pub settle : Result (Handed H × ℕ) × Sinker × W → (ℕ × Option Error) × Sinker × W
  settle (err e, s, w) = ((0, some e), s, w)
  settle (ok (result, sent), s, w) =
      let ((n, e), w') = wait_for result w in ((n, accounted n sent e), s, w')

  unfoldable pub sink : Batch V → Sinker → W → (ℕ × Option Error) × Sinker × W
  sink b s w = settle (send b s w)
