-- ===== src/Storage.antt =====
-- StorageWrite and StorageWriter of storagewrite.go: Validate, NewWriter, parseTableParent,
-- BindSchema, WriteRows, Wait and Close. The client library, the proto descriptors and the encoding
-- of rows are a record of calls on a world. Calls run one after another.
pub mod Connections
pub mod Parents
use bqsink.Common.{
  ℕ, String, Bool, true, false, not, ◌&&◌, Option, none, some, List, [], ◌∷◌, str_eq, if◌then◌else◌,
  length,
}
use bqsink.Common.Text
use bqsink.Fault.{Error, message, sentinel, writer_closed, wrap, Result, ok, err}
use bqsink.Fault
use bqsink.Exec.{Exec, pure, fail, lift, wrapping, ◌>>=◌, ◌>>◌}
use bqsink.Column.{Schema}
use bqsink.Relation.{Relation, validate}

-- managedwriter.StreamType; the empty one is `unset_stream`
pub data StreamType : Type 0 where
  unset_stream default_stream committed_stream pending_stream buffered_stream : StreamType
  unknown_stream : String → StreamType

pub record Settings : Type 0 where
  pub stream_name : String
  pub stream_type : StreamType

abbrev is_unset : StreamType → Bool
is_unset unset_stream = true
is_unset _ = false

check_type : StreamType → Result (Unit {0})
check_type unset_stream = ok tt
check_type default_stream = ok tt
check_type committed_stream = ok tt
check_type pending_stream = err (message "StorageWrite: bqsink does not commit a pending stream")
check_type buffered_stream =
    err (message "StorageWrite: bqsink does not advance a buffered stream's offset")
check_type (unknown_stream t) = err (message "StorageWrite: unknown StreamType")

-- StorageWrite.Validate
unfoldable pub validate_settings : Settings → Result (Unit {0})
unfolding check_type
validate_settings c =
    if not (str_eq c.stream_name "") && not (is_unset c.stream_type)
    then err (message "StorageWrite: StreamName and StreamType are mutually exclusive")
    else check_type c.stream_type

abbrev bad_parent : Result Relation
bad_parent = err (message "not a projects/{project}/datasets/{dataset}/tables/{table} table parent")

unfoldable pub of_segments : List String → Result Relation
of_segments (a ∷ p ∷ b ∷ d ∷ c ∷ t ∷ []) =
    if str_eq a "projects" && str_eq b "datasets" && str_eq c "tables"
    then ok (record { project_id = p; dataset_id = d; table_id = t })
    else bad_parent
of_segments _ = bad_parent

-- parseTableParent
unfoldable pub parse_table_parent : String → Result Relation
parse_table_parent parent = of_segments (Text.split b'/' parent)

-- a == b on relations
unfoldable pub same_relation : Relation → Relation → Bool
same_relation a b =
    str_eq a.project_id b.project_id
    && str_eq a.dataset_id b.dataset_id
    && str_eq a.table_id b.table_id

-- An empty project is filled in from the client.
abbrev pub with_project : String → Relation → Relation
with_project project r = if str_eq r.project_id "" then record r { project_id = project } else r

module _ (table_parent : String → String) where
  -- The check of NewWriter that a named stream belongs to the relation.
  unfoldable pub check_stream : String → Relation → Result (Unit {0})
  check_stream name r =
      if str_eq name "" then ok tt else elim (parse_table_parent (table_parent name)) [
        | err e ↦ err (wrap "bqsink: StorageWrite.NewWriter: StreamName" e)
        | ok owner ↦
            if same_relation owner r
            then ok tt
            else err (message "bqsink: StorageWrite.NewWriter: StreamName belongs to another table")
      ]

-- StorageWriter: its schema with what rows are encoded by, its client and stream once it is bound.
pub record Bound (D Client Stream : Type 0) : Type 0 where
  pub schema : Schema
  pub descriptor : D
  pub client : Client
  pub stream : Stream

pub record Writer (D Client Stream : Type 0) : Type 0 where
  pub relation : Relation
  pub bound : Option (Bound D Client Stream)
  pub closed : Bool

-- What NewWriter makes of a relation and a client's project; `none` is a nil client.
unfoldable pub new_writer :
    {D Client Stream : Type 0}
    → (String → String)
    → Settings
    → Option String
    → Relation
    → Result (Writer D Client Stream)
new_writer table_parent c none r = err (message "bqsink: StorageWrite.NewWriter: client is nil")
new_writer table_parent c (some project) r = Fault.◌>>◌ (validate r) (
    Fault.◌>>◌ (Fault.wrapping "bqsink" (validate_settings c)) (
      Fault.◌>>◌ (check_stream table_parent c.stream_name (with_project project r))
        (ok (record { relation = with_project project r; bound = none; closed = false }))))

pub record Library (D N Client Stream Row Ack W : Type 0) : Type 0 where
  pub row_descriptor : Schema → Result D
  pub normalize : D → Result N
  pub open_client : String → Exec W Client
  pub open_stream : Client → N → Exec W Stream
  pub close_client : Client → Exec W (Unit {0})
  pub close_stream : Stream → Exec W (Unit {0})
  pub is_eof : Error → Bool
  pub encode : Row → Schema → D → Result String
  pub append : Stream → List String → Exec W Ack
  -- FullResponse
  pub response : Ack → Exec W (Unit {0})

abbrev pub refused_closed : Error
refused_closed = wrap "bqsink: StorageWriter" (sentinel writer_closed)

module _ {D N Client Stream Row Ack W : Type 0} (l : Library D N Client Stream Row Ack W) where
  -- A client whose stream does not open is closed again.
  abbrev open_on : Client → N → Exec W Stream
  open_on c n w = keep (l.open_stream c n w)
    where
      keep : Result Stream × W → Result Stream × W
      keep (ok s, x) = (ok s, x)
      keep (err e, x) =
          let (r, y) = l.close_client c x in (err (wrap "bqsink: open a write stream" e), y)

  unfoldable pub connect_with : Schema → D → N → Client → Exec W (Bound D Client Stream)
  connect_with schema d n c = do
    s ← open_on c n
    pure (record { schema = schema; descriptor = d; client = c; stream = s })

  unfoldable pub connect : String → Schema → Exec W (Bound D Client Stream)
  connect project schema = do
    d ← lift (l.row_descriptor schema)
    n ← wrapping "bqsink: normalize the proto descriptor" (lift (l.normalize d))
    c ← wrapping "bqsink: open a Storage Write API client" (l.open_client project)
    connect_with schema d n c

  abbrev pub keep_bound :
      Writer D Client Stream
      → Result (Bound D Client Stream) × W
      → Result (Unit {0}) × Writer D Client Stream × W
  keep_bound v (ok b, w) = (ok tt, record v { bound = some b }, w)
  keep_bound v (err e, w) = (err e, v, w)

  unfoldable pub bind_schema :
      Schema → Writer D Client Stream → W → Result (Unit {0}) × Writer D Client Stream × W
  bind_schema [] v w = (err (message "bqsink: StorageWriter: the schema has no columns"), v, w)
  bind_schema (f ∷ fs) v w = if v.closed then (err refused_closed, v, w) else elim v.bound [
    | some b ↦ (err (message "bqsink: StorageWriter: a schema is already bound"), v, w)
    | none ↦ keep_bound v (connect v.relation.project_id (f ∷ fs) w)
  ]

  unfoldable pub encode_all : List Row → Bound D Client Stream → Result (List String)
  encode_all [] b = ok []
  encode_all (r ∷ rs) b = elim (l.encode r b.schema b.descriptor) [
    | err e ↦ err e
    | ok bytes ↦ elim (encode_all rs b) [ ok rest ↦ ok (bytes ∷ rest) | err e ↦ err e ]
  ]

  -- The result of WriteRows: resolved for no rows, or an append in flight with its rows.
  pub data Sent : Type 0 where
    nothing_sent : Sent
    appended : Ack → List Row → Sent

  abbrev send : List Row → Bound D Client Stream → Exec W Sent
  send rows b = do
    bytes ← lift (encode_all rows b)
    ack ← wrapping "bqsink: append row(s)" (l.append b.stream bytes)
    pure (appended ack rows)

  unfoldable pub write_rows : List Row → Writer D Client Stream → Exec W Sent
  write_rows [] v = pure nothing_sent
  write_rows (r ∷ rs) v = if v.closed then fail refused_closed else elim v.bound [
    | none ↦ fail (message "bqsink: StorageWriter: no schema is bound yet")
    | some b ↦ send (r ∷ rs) b
  ]

  abbrev settled : ℕ → Result (Unit {0}) × W → (ℕ × Option Error) × W
  settled n (ok u, w) = ((n, none), w)
  settled n (err e, w) = ((0, some (wrap "bqsink: row(s) were rejected" e)), w)

  unfoldable pub wait : Sent → W → (ℕ × Option Error) × W
  wait nothing_sent w = ((0, none), w)
  wait (appended ack rows) w = settled (length rows) (l.response ack w)

  -- A stream that was closed cleanly reports io.EOF.
  abbrev stream_failure : Result (Unit {0}) → Option Error
  stream_failure (ok u) = none
  stream_failure (err e) =
      if l.is_eof e then none else some (wrap "bqsink: close the write stream" e)

  -- Only the first failure is returned.
  abbrev first_failure : Option Error → Result (Unit {0}) → Option Error
  first_failure (some e) r = some e
  first_failure none (ok u) = none
  first_failure none (err e) = some (wrap "bqsink: close the Storage Write API client" e)

  unfoldable pub close : Writer D Client Stream → W → Option Error × Writer D Client Stream × W
  close v w = if v.closed then (none, v, w) else elim v.bound [
    | none ↦ (none, record v { closed = true }, w)
    | some b ↦
        let (r, x) = l.close_stream b.stream w in
        let (q, y) = l.close_client b.client x in
        (first_failure (stream_failure r) q, record v { closed = true }, y)
  ]
