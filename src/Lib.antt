-- ===== src/Lib.antt =====
-- bqsink writes rows of a declared Go type to one BigQuery table. A Sinker (bqsink.go) first brings
-- the table in line with the declaration: `migrate` (migration.go) reads the table, DiffSchema
-- compares the two schemas, a MigrationStrategy plans a SchemaChange, and `apply` sends it as a
-- schema patch and an ALTER TABLE statement. Rows then go through a RowsWriter; LoadJobsWriter
-- (write.go) buffers them and sends each batch as a load job; StorageWriter (storagewrite.go) appends
-- them to a stream.
--
-- Common: names of the libraries, lists, texts and maps that the other files share.
-- Fault, Exec: Go's errors and the calls that return one, as values; Exec passes a world along.
-- Column: bigquery.FieldSchema. Relation: relation.go. Metadata: bigquery.TableMetadata and
-- clearReadOnlyTableMetadata of migration.go.
-- Diff: DiffSchema, conflictBetween, sameNestedSchema and the methods of SchemaDiff in migration.go.
-- Strategy: MigrationNone, AppendNewColumns and SyncAllColumns of migration.go.
-- Merge: mergeSchema and requiredNames of migration.go.
-- Migration: Sinker.migrate of migration.go and what it calls. The table, the query runner and the
-- logger are the record Table, whose calls act on any world; Migration/Reconciles states what BigQuery
-- documents of them as the hypothesis Behaves.
-- LoadJobs: LoadJobsWriter of write.go, cut where it takes and releases its mutex, with the load job as
-- a parameter; LoadJobs/Session runs calls one after another.
-- Sinker: Start, Sink and SinkAsync of bqsink.go with send, rowsOf, batchRowType and prepare. The record
-- Calls holds what they call: reflection on a row, FillRow, the migration and the RowsWriter.
-- Storage: StorageWrite and StorageWriter of storagewrite.go over the record Library, the calls of the
-- managedwriter package and of the proto encoding.
-- Declare: resolveSchema, resolveTableMetadata and checkPlanAgainstSchema of bqsink.go, over the fields
-- of rowPlan and fieldPlan (plan.go) that they read.
-- Layout: resolveLayout of plan.go with its two column checks.
-- Tags: parseTag, parsePartition, parseFieldTags and parseLabels of schema.go, with strconv.Atoi and
-- strings.ToLower as parameters.
-- Retry: isConcurrentChange, isRetryable and attemptLimiter of migration.go, without the pauses.
-- Value: the values of a row, before and after the conversion. MapRow: mapPlan of maprow.go, with what
-- marshalers return as a parameter; buildMapPlanFor, the nested plans by a column's name, is
-- plan_for. JsonRow: jsonrow.go, with the formatting of
-- times, dates and numbers and the bytes that json.Encoder writes as the parameter Texts.
-- GoTypes: Go's types as reflection shows them. Fields: collectFields and resolveCollisions of fields.go
-- over a table of struct types, level by level on fuel. Marshal: the registered marshalers of marshal.go.
-- The files of Plan model buildRowPlan of plan.go and tableMetaOf of schema.go, on fuel for the depth of RECORD columns.
-- StructRow: rowPlan.marshalRow of plan.go and the conversions that it calls, over any value of a struct.
-- Staging: bqgcs/staging.go, and tableLoader, stagedLoader and runLoader of write.go.
-- Tests: runs at concrete inputs.
--
-- Go's int is ℕ where the value is a length or a count. A map is a list of its entries,
-- in one of the orders in which Go may range over it. Recursion is structural, but for the levels of
-- collectFields, which are on fuel: two more than there are struct types in reach are enough, and the calls of
-- buildRowPlanFor, which are on fuel for their depth: where the RECORD columns do not go round in a
-- circle, a rank of the struct types is enough. Texts of errors keep their
-- first words and leave the values out that Go formats into them, except where a test reads them.
--
-- Not modelled: the loop of retries (bqsink.go, gax), options (option.go), how FillRow is found by
-- reflection (fill.go), the encoding of a value as JSON (marshalAsJSON of plan.go), the lines that a load
-- job is sent and their retries (load of write.go), the name of a staged object, and callers that
-- interleave.
pub mod Common
pub mod Fault
pub mod Column
pub mod Diff
pub mod Strategy
pub mod Merge
pub mod Exec
pub mod Relation
pub mod Metadata
pub mod Migration
pub mod LoadJobs
pub mod Sinker
pub mod Storage
pub mod Declare
pub mod Layout
pub mod Tags
pub mod Retry
pub mod Value
pub mod MapRow
pub mod JsonRow
pub mod GoTypes
pub mod Marshal
pub mod Fields
pub mod Plan
pub mod StructRow
pub mod Staging
mod Tests
