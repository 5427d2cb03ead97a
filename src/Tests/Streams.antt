-- ===== src/Tests/Streams.antt =====
-- A StorageWriter over a library whose first stream does not open; the world counts the open clients
-- and the attempts.
use bqsink.Common.{
  ℕ, suc, ◌+◌, ◌-◌, ◌≡◌, refl, true, false, none, some, List, [], ◌∷◌, arith, String, ◌==◌,
  if◌then◌else◌, eq_iff,
}
use bqsink.Fault.{message, ok, err}
use bqsink.Relation.{Relation, validate}
use bqsink.Common.Text.{split}
use bqsink.Storage.{
  Settings, unset_stream, validate_settings, parse_table_parent, of_segments, same_relation,
  check_stream, with_project, Writer, new_writer, Library, bind_schema, connect, connect_with,
  encode_all, write_rows, close,
}
use bqsink.Storage.Connections.{Call, bind, write, close_writer, step, run, Tracks, held, run-held}
use bqsink.Storage.Parents.{parent_of, new_writer-stream}
use bqsink.Tests.Schemas.{declared}

abbrev access : Relation
access = record { project_id = ""; dataset_id = "logs"; table_id = "access" }

abbrev named : Settings
named = record {
  stream_name = "projects/p/datasets/logs/tables/access/streams/s";
  stream_type = unset_stream;
}

-- The library's function at this one name.
abbrev parent : String → String
parent name = "projects/p/datasets/logs/tables/access"

abbrev opened : Writer ℕ ℕ ℕ
opened = record { relation = with_project "p" access; bound = none; closed = false }

accepts : new_writer parent named (some "p") access ≡ ok opened
unfolding new_writer validate validate_settings check_stream parse_table_parent split of_segments
    same_relation
accepts = refl

new_writer-stream_example :
    (parent named.stream_name ≡ parent_of (with_project "p" access))
    × (opened.relation ≡ with_project "p" access)
    × (opened.bound ≡ none)
    × (opened.closed ≡ false)
new_writer-stream_example =
    new_writer-stream parent named "p" access opened accepts
      (λ e. ground (arith, e, eq_iff named.stream_name ""))

-- The world: open clients and attempts at a stream.
abbrev Net : Type 0
Net = ℕ × ℕ

abbrev opens : Net → ℕ
opens w = w.0

abbrev library : Library ℕ ℕ ℕ ℕ ℕ ℕ Net
library = record {
  row_descriptor = λ fs. ok 0;
  normalize = λ d. ok d;
  open_client = λ p w. (ok 7, (suc w.0, w.1));
  open_stream = λ c n w. (if w.1 == 0 then err (message "unavailable") else ok 8, (w.0, suc w.1));
  close_client = λ c w. (ok tt, (w.0 - 1, w.1));
  close_stream = λ s w. (err (message "EOF"), w);
  is_eof = λ e. true;
  encode = λ r fs d. ok "row";
  append = λ s d w. (ok 5, w);
  response = λ a w. (ok tt, w);
}

library-Tracks : Tracks library opens
library-Tracks = record {
  opened = λ p c w w' h. ground (arith, h);
  refused = λ p e w w' h. ground (arith, h);
  streams = λ c n w. refl;
  closes = λ c w. refl;
  ends = λ s w. refl;
  appends = λ s d w. refl;
}

abbrev calls : List (Call ℕ)
calls = bind declared ∷ bind declared ∷ write (1 ∷ 2 ∷ []) ∷ []

session :
    ((run library calls (opened, (3, 0))).1 ≡ (4, 2))
    × ((run library (close_writer ∷ []) (run library calls (opened, (3, 0)))).1 ≡ (3, 2))
unfolding run step bind_schema connect connect_with write_rows encode_all close
session = (refl, refl)

run-held_example :
    opens (run library calls (opened, (3, 0))).1
    ≡ 3 + held library (run library calls (opened, (3, 0))).0
run-held_example = run-held library opens library-Tracks calls opened (3, 0) refl
