-- ===== src/Agent.antt =====
-- crates/crossx-agent: configuration, export with retries and a disk queue behind it, the log
-- sources, and the agent's side of the relay. `Retry` and `Exporter` are export.rs and the
-- exporter of logs.rs, `Transport` the channels of export.rs, `LogsRetry`
-- the retries of logs.rs and `Direct` the two beside each other, `Sources` and `Journald` the sources
-- of logs.rs, `Loop`, `Rounds` and `Logging` the loop over them, `Config` is config.rs, `Proxy` and
-- `Credentials` relay.rs, `Running` and `Tasks` main.rs. `Overlay` is about the configuration;
-- `Draining`, `Accepting`, `Emptying` and `Channels` about one export; `Fates`, `Conserving`,
-- `Ticking`, `Lives`, `Lossless` and `Catching` about the metrics from start to start; `Restart`, `Following`,
-- `Moving`, `Serving`, `Looping`, `Agreeing` and `Logged` about the log sources. `Tests` and
-- `RunTests` have the runs.
pub mod Retry
pub mod Exporter
pub mod Transport
pub mod Draining
pub mod Accepting
pub mod Emptying
pub mod Channels
pub mod LogsRetry
pub mod Direct
pub mod Sources
pub mod Journald
pub mod Config
pub mod Overlay
pub mod Proxy
pub mod Credentials
pub mod Restart
pub mod Loop
pub mod Looping
pub mod Agreeing
pub mod Rounds
pub mod Following
pub mod Moving
pub mod Serving
pub mod Tasks
pub mod Running
pub mod Fates
pub mod Conserving
pub mod Ticking
pub mod Lives
pub mod Lossless
pub mod Catching
pub mod Logging
pub mod Logged
mod Tests
mod RunTests
