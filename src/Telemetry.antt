-- ===== src/Telemetry.antt =====
-- crates/agent-telemetry/src: the log sources and the host metrics. `Tailer` reads a file from a
-- checkpoint on, `Checkpoints` has the files of the checkpoints, `Records` normalizes journald lines
-- and builds the logs request (logs.rs); `Sampler` and `Warmup` are sampler.rs and `Otlp` otlp.rs.
-- `Lines`, `Resume`, `Replacing`, `Logged`, `Counters` and `Metrics` are proofs, and `Tests` has the
-- runs.
pub mod Tailer
pub mod Records
pub mod Checkpoints
pub mod Replacing
pub mod Logged
pub mod Sampler
pub mod Warmup
pub mod Otlp
pub mod Lines
pub mod Resume
pub mod Counters
pub mod Metrics
mod Tests
