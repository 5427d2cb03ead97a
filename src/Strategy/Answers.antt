-- ===== src/Strategy/Answers.antt =====
-- What a strategy's answer for an existing table says: the change that it holds, and that no column
-- which the strategy manages is in conflict.
use bqsink.Common.{String, ◌≡◌, Bool, true, false, List, [], arith}
use bqsink.Fault.{ok}
use bqsink.Diff.{SchemaDiff, without}
use bqsink.Strategy.{SchemaChange, append_new_columns, sync_all_columns}

pub append-answer :
    (create : Bool) (d : SchemaDiff) {change : SchemaChange}
    → (append_new_columns create (record { exists = true; diff = d })).answer ≡ ok change
    → (d.conflicts ≡ [])
      × (change ≡ record {
        create_table = false;
        add_columns = d.added;
        relax_columns = d.relaxed;
        drop_columns = [];
      })
unfolding append_new_columns
append-answer create d h = (ground arith, ground arith)

pub sync-answer :
    (ignore : List String) (create : Bool) (d : SchemaDiff) {change : SchemaChange}
    → (sync_all_columns ignore create (record { exists = true; diff = d })).answer ≡ ok change
    → ((without d ignore).conflicts ≡ [])
      × (change ≡ record {
        create_table = false;
        add_columns = (without d ignore).added;
        relax_columns = (without d ignore).relaxed;
        drop_columns = (without d ignore).removed;
      })
unfolding sync_all_columns
sync-answer ignore create d h = (ground arith, ground arith)
