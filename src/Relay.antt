-- ===== src/Relay.antt =====
-- crates/crossx-relay-rs: the relay client. `Chunk` is the length-prefixed encoding that the signed
-- byte layouts share, `Auth` the transcripts, `Enroll` and `Cert` the credentials and the chain of
-- certificates, `Errors` and `Protocol` the errors and messages, `Frame` the control frames and
-- `Peer` and `Connect` the session; `Layout`, `Scope`, `Within`, `Checks`, `Authority`, `Chains`,
-- `Framing`, `Session` and `Pinning` are proofs, and `Tests` has the runs.
pub mod Chunk
pub mod Auth
pub mod Enroll
pub mod Cert
pub mod Errors
pub mod Protocol
pub mod Frame
pub mod Peer
pub mod Connect
pub mod Layout
pub mod Scope
pub mod Within
pub mod Checks
pub mod Authority
pub mod Chains
pub mod Framing
pub mod Session
pub mod Pinning
mod Tests
