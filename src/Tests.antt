-- ===== src/Tests.antt =====
-- Runs of the model at concrete inputs, and the theorems at inputs that meet their conditions.
mod Schemas
mod Tables
mod Writers
mod Relations
mod Sinks
mod Streams
mod Declarations
mod Labelled
mod Retries
mod Rows
mod Embedded
mod Plans
mod Registered
mod Structs
mod Staged
