-- ===== src/Wal.antt =====
-- crates/crossx-agent/src/wal.rs: the append-only disk queue that keeps telemetry while an export
-- fails. `Disk` is the WAL directory, `Names` the names of its files, `Record` the bytes of one
-- record, `Ops` the methods of `Wal`. The other modules are proofs, from `Stored` on of what a
-- restart finds, and `Tests` has the runs.
pub mod Disk
pub mod Names
pub mod Naming
pub mod Record
pub mod Ops
pub mod Files
pub mod Reading
pub mod Scanning
pub mod Reads
pub mod Queue
pub mod Append
pub mod Capacity
pub mod Enforce
pub mod Delivery
pub mod Loss
pub mod Stored
pub mod Recovery
pub mod Torn
pub mod Places
pub mod Durable
pub mod Progress
pub mod Acked
pub mod Written
pub mod Rolled
pub mod Evicting
pub mod Reopening
pub mod Settled
pub mod Stopping
pub mod Acknowledging
pub mod Found
pub mod Passing
pub mod Refusing
mod Tests
