-- ===== src/Relay/Errors.antt =====
-- `RelayError` of crates/crossx-relay-rs/src/lib.rs. The text of a protocol or TLS error is kept as
-- the parts that it is made of.
use cross_xagent.Base.{ℕ, Bytes, beq_bytes, if◌then◌else◌}
use cross_xagent.Relay.Auth.{ascii}

pub data Fault : Type 0 where
  wire_code : Bytes → Fault
  invalid_length : ℕ → Fault
  invalid_json not_serialized : Fault
  unexpected_type : Bytes → Bytes → Fault
  invalid_payload : Bytes → Fault
  invalid_nonce : ℕ → Fault
  no_session no_reconnect_token : Fault
  invalid_for_peer : Bytes → Bytes → Fault

pub data TlsFault : Type 0 where
  invalid_pem no_certificates invalid_certificate invalid_store : TlsFault
  no_port invalid_name handshake_failed no_leaf : TlsFault

pub data RelayError : Type 0 where
  protocol : Fault → RelayError
  tls : TlsFault → RelayError
  yamux : Bytes → RelayError
  unauthenticated unauthorized target_offline registration_conflict protocol_version io : RelayError

pub data Result {ℓ} (T : Type ℓ) : Type ℓ where
  failed : RelayError → Result T
  ok : T → Result T

unfoldable pub from_wire_code : Bytes → RelayError
from_wire_code code =
    if beq_bytes code (ascii "unauthenticated")
    then unauthenticated
    else if beq_bytes code (ascii "unauthorized")
    then unauthorized
    else if beq_bytes code (ascii "target_offline")
    then target_offline
    else if beq_bytes code (ascii "registration_conflict")
    then registration_conflict
    else if beq_bytes code (ascii "protocol_version")
    then protocol_version
    else protocol (wire_code code)
