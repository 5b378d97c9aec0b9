-- ===== src/Lib.antt =====
-- The CrossX agent: telemetry is collected, kept on disk while the collector cannot be reached,
-- and sent either directly or through a relay that authenticates the agent.
--
-- Strings and files are lists of bytes, a byte and a machine integer are native numbers with their
-- bounds written out, and an i64 is a sign and a number. Code of other crates is a parameter.
--
-- Base: the Boolean tests, list functions and byte encodings that the other modules share.
--
-- Wal: crates/crossx-agent/src/wal.rs. Wal.Disk is the WAL directory as a list of segment files
-- and the cursor file, and Wal.Names has the names of those files; Wal.Record is the record format
-- with crc32 and the recovery scan; Wal.Ops has the methods of Wal (open is open_wal), each of
-- which returns its result beside the state.
-- Wal.Queue says when a state holds a queue of payloads; Wal.Found says where a record stands in
-- its file; Wal.Stored describes a directory by its payloads, and Wal.Durable says when a state is
-- what its directory says; Wal.Stopping names the places between the writes of append and of ack at
-- which the process may stop. The other modules prove what the methods do to both. A failed write is
-- one that stops after any number of bytes of its record. The loop of enforce_cap has two rounds
-- more than there are segments, and scan_segment one more than the file has bytes; the theorems on
-- both show that this is enough.
--
-- Relay: crates/crossx-relay-rs/src. Relay.Chunk and Relay.Auth are auth.rs, Relay.Enroll is
-- enroll.rs, Relay.Cert is cert.rs, Relay.Errors is lib.rs, Relay.Protocol is protocol.rs,
-- Relay.Frame is frame.rs, Relay.Peer the exchanges of peer.rs over a stream of messages, and
-- Relay.Connect its pinned TLS, its driver and Peer::connect and next_proxy. Ed25519, serde_json,
-- rustls and yamux are parameters.
--
-- Telemetry: crates/agent-telemetry/src. Telemetry.Tailer is FileTailer of logs.rs, with one state
-- of the file for each poll, and Telemetry.Checkpoints its checkpoint files, which are written and
-- then renamed; Telemetry.Records has the journald lines and the logs request of logs.rs;
-- Telemetry.Sampler is sampler.rs over the readings of one tick, Telemetry.Warmup its
-- HostSampler::new, and Telemetry.Otlp is otlp.rs. The readings of sysinfo and the operations on
-- f64 are parameters.
--
-- Agent: the rest of crates/crossx-agent/src. Agent.Exporter has the exporters of logs.rs and
-- export.rs over the log of Wal, Agent.Retry the retries of export.rs and Agent.Transport its
-- channel, which the relay may hand over as a pipe. Agent.LogsRetry has the retries of logs.rs, by
-- the numbers of the attempts and with its own delays, jitter and client; Agent.Exporter takes both
-- in the form of Agent.Retry, over a collector of each. Agent.Sources and
-- Agent.Journald are the sources of logs.rs, which use Telemetry.Tailer; Agent.Loop is a round of
-- the logs loop with lib.rs, Agent.Rounds the loop, and Agent.Logging the exporter that it calls;
-- Agent.Running is run_loop of main.rs over the directory of the log, from start to start of the
-- process, and Agent.Tasks its run_forever; Agent.Config is config.rs, Agent.Proxy the backoff, the
-- loops and the routing of relay.rs, and Agent.Credentials its load_peer_config. Agent.Fates says
-- what becomes of payloads: exported, dropped by the cap, or still in the log. The collector, the
-- clock and journalctl are parameters.
--
-- Not modelled: failing disk operations other than a missing or a short file; what TLS, yamux and
-- the sockets do inside; base64 and JSON; the command line of main.rs; what is compiled for Windows
-- only.
pub mod Base
pub mod Wal
pub mod Relay
pub mod Agent
pub mod Telemetry
