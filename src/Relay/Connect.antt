-- ===== src/Relay/Connect.antt =====
-- How a session comes about in crates/crossx-relay-rs/src/peer.rs: TLS pinned to one certificate, the
-- driver of the yamux connection, and `Peer::connect` and `next_proxy` above them. rustls, yamux, the
-- parsers of addresses and names and the digest of a certificate are parameters.
use cross_xagent.Base.{
  ℕ, Bool, true, false, not, Option, none, some, List, [], ◌∷◌, Bytes, ◌==◌, if◌then◌else◌,
  beq_bytes, all,
}
use cross_xagent.Relay.Auth.{ascii}
use cross_xagent.Relay.Errors.{
  invalid_pem, no_certificates, invalid_certificate, invalid_store, no_port, invalid_name,
  handshake_failed, no_leaf, RelayError, io, tls, yamux, Result, failed, ok,
}
use cross_xagent.Relay.Protocol.{ProxyHeader}
use cross_xagent.Relay.Peer.{RelayConfig, PeerKind, agent, Control, require_kind, authenticate}

-- `rsplit_once`: the parts before and behind the last occurrence.
unfoldable pub rsplit_once : ℕ → Bytes → Option (Bytes × Bytes)
rsplit_once c [] = none
rsplit_once c (x ∷ s) = elim (rsplit_once c s) [
  | some (before, behind) ↦ some (x ∷ before, behind)
  | none ↦ if x == c then some ([], s) else none
]

unfoldable pub trim_start_matches : ℕ → Bytes → Bytes
trim_start_matches c [] = []
trim_start_matches c (x ∷ s) = if x == c then trim_start_matches c s else x ∷ s

abbrev keep_unless : ℕ → ℕ → Bytes → Bytes
keep_unless c x [] = if x == c then [] else x ∷ []
keep_unless c x (y ∷ s) = x ∷ y ∷ s

unfoldable pub trim_end_matches : ℕ → Bytes → Bytes
trim_end_matches c [] = []
trim_end_matches c (x ∷ s) = keep_unless c x (trim_end_matches c s)

pub data ServerName : Type 0 where
  ip_address dns_name : Bytes → ServerName

-- The address of a socket that parses, as its IP address, and `ServerName::try_from`.
pub record Names : Type 0 where
  pub parse_socket_addr : Bytes → Option Bytes
  pub try_from : Bytes → Option ServerName

unfoldable pub server_name : Names → Bytes → Result ServerName
server_name names addr = elim (names.parse_socket_addr addr) [
  | some ip ↦ ok (ip_address ip)
  | none ↦ elim (rsplit_once b':' addr) [
    | none ↦ failed (tls no_port)
    | some (host, _) ↦
        elim (names.try_from (trim_end_matches b']' (trim_start_matches b'[' host))) [
          | none ↦ failed (tls invalid_name)
          | some name ↦ ok name
        ]
  ]
]

-- `PinnedCertificateVerifier::verify_server_cert`
unfoldable pub verify_server_cert : Bytes → Bytes → Bool
verify_server_cert pinned_leaf end_entity = beq_bytes end_entity pinned_leaf

-- What connecting a socket and the TLS handshake come to.
pub data Handshake : Type 0 where
  socket_failed tls_failed : Handshake
  connected : List Bytes → Handshake

-- The PEM parser, the trust store that is built certificate by certificate, the handshake with a
-- verifier of the server's certificate, and `relay_binding`.
pub record Rustls : Type 0 where
  pub names : Names
  pub parse_pem : Bytes → Option (List Bytes)
  pub is_root : Bytes → Bool
  pub build_verifier : List Bytes → Bool
  pub handshake : (Bytes → Bool) → ServerName → Bytes → Handshake
  pub relay_binding : Bytes → Bytes

-- The binding of the first certificate that the server presented.
abbrev pub binding_of : Rustls → Handshake → Result Bytes
binding_of rustls socket_failed = failed io
binding_of rustls tls_failed = failed (tls handshake_failed)
binding_of rustls (connected []) = failed (tls no_leaf)
binding_of rustls (connected (leaf ∷ chain)) = ok (rustls.relay_binding leaf)

-- From the parsed certificates on; the first one is pinned.
unfoldable pub connect_pinned : Rustls → Bytes → List Bytes → Result Bytes
connect_pinned rustls addr [] = failed (tls no_certificates)
connect_pinned rustls addr (pinned_leaf ∷ certificates) =
    if not (all rustls.is_root (pinned_leaf ∷ certificates))
    then failed (tls invalid_certificate)
    else if not (rustls.build_verifier (pinned_leaf ∷ certificates))
    then failed (tls invalid_store)
    else elim (server_name rustls.names addr) [
      | failed e ↦ failed e
      | ok name ↦ binding_of rustls (rustls.handshake (verify_server_cert pinned_leaf) name addr)
    ]

unfoldable pub connect_tls : Rustls → RelayConfig → Result Bytes
connect_tls rustls cfg = elim (rustls.parse_pem cfg.root_cert_pem) [
  | none ↦ failed (tls invalid_pem)
  | some certificates ↦ connect_pinned rustls cfg.addr certificates
]

-- What happens to the driver of a connection: a request for a stream, the end of those who request,
-- a stream of the relay with whether anyone still takes it, an error, or the end of the session.
pub data DriverEvent (Stream : Type 0) : Type 0 where
  requested requesters_gone closed : DriverEvent Stream
  incoming : Stream → Bool → DriverEvent Stream
  broken : Bytes → DriverEvent Stream

pub data Inbound (Stream : Type 0) : Type 0 where
  stream : Stream → Inbound Stream
  message : Bytes → Inbound Stream

-- What `drive_connection` hands to the receiver of inbound streams.
unfoldable pub drive_connection :
    {Stream : Type 0} → List (DriverEvent Stream) → List (Inbound Stream)
drive_connection [] = []
drive_connection (requested ∷ events) = drive_connection events
drive_connection (requesters_gone ∷ events) = []
drive_connection (incoming s true ∷ events) = stream s ∷ drive_connection events
drive_connection (incoming s false ∷ events) = []
drive_connection (broken text ∷ events) = message text ∷ []
drive_connection (closed ∷ events) = message (ascii "session closed") ∷ []

abbrev pub driver_stopped : RelayError
driver_stopped = yamux (ascii "session driver stopped")

-- The next entry of the inbound streams, as long as the driver's end is there.
unfoldable pub take_inbound : {Stream : Type 0} → Option (Inbound Stream) → Result Stream
take_inbound none = failed driver_stopped
take_inbound (some (stream s)) = ok s
take_inbound (some (message text)) = failed (yamux text)

unfoldable pub next_proxy :
    {Stream : Type 0}
    → (Stream → Result ProxyHeader × Stream)
    → PeerKind
    → Option (Inbound Stream)
    → Result (ProxyHeader × Stream)
next_proxy read_header kind inbound = elim (require_kind kind agent (ascii "next_proxy")) [
  | failed e ↦ failed e
  | ok _ ↦ elim (take_inbound inbound) [
    | failed e ↦ failed e
    | ok s ↦
        let (header, s') = read_header s in elim header [ failed e ↦ failed e | ok h ↦ ok (h, s') ]
  ]
]

pub data Driver : Type 0 where
  not_spawned running aborted : Driver

-- `request_stream`: whether the driver took the request, and what it answered, if it did.
unfoldable pub request_stream : {S : Type 0} → Bool → Option (Result S) → Result S
request_stream false answered = failed driver_stopped
request_stream true none = failed driver_stopped
request_stream true (some answered) = answered

-- `Peer::connect`: the peer's kind and its control stream, and what becomes of the driver task.
-- `requested_stream` is what `request_stream` gives for the control stream.
module _ {S : Type 0} (rustls : Rustls) (control : Control S) (sign : Bytes → Bytes → Bytes) where
  unfoldable pub connect : RelayConfig → PeerKind → Result S → Result (PeerKind × S) × Driver
  connect cfg kind requested_stream = elim (connect_tls rustls cfg) [
    | failed e ↦ (failed e, not_spawned)
    | ok binding ↦ elim requested_stream [
      | failed e ↦ (failed e, aborted)
      | ok s ↦
          let (authenticated, s') = authenticate control sign cfg kind binding s in
          elim authenticated [ failed e ↦ (failed e, aborted) | ok _ ↦ (ok (kind, s'), running) ]
    ]
  ]
