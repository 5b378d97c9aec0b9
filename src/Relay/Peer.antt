-- ===== src/Relay/Peer.antt =====
-- The session of crates/crossx-relay-rs/src/peer.rs above its streams: authentication, registration
-- and dialing. A stream is a parameter that sends and receives one message at a time; TLS, yamux and
-- the Ed25519 signature are parameters too.
use cross_xagent.Base.{
  ℕ, Bool, true, false, not, Option, none, some, List, [], ◌∷◌, Bytes, length, ◌==◌, if◌then◌else◌,
}
use cross_xagent.Relay.Auth.{ascii, transcript, enrollment_transcript}
use cross_xagent.Relay.Enroll.{Token, canonical}
use cross_xagent.Relay.Cert.{Cert}
use cross_xagent.Relay.Errors.{
  protocol, Result, failed, ok, from_wire_code, invalid_nonce, no_session, no_reconnect_token,
  invalid_for_peer,
}
use cross_xagent.Relay.Protocol.{
  version, AuthInit, Challenge, AuthProof, AuthResp, Register, RegisterResp, Dial, DialResp,
}

pub record RelayConfig : Type 0 where
  pub addr : Bytes
  pub root_cert_pem : Bytes
  pub key_seed : Bytes
  pub principal : Bytes
  pub enrollment : Option Token
  pub chain : List Cert

pub data PeerKind : Type 0 where
  agent desktop : PeerKind

abbrev pub wire_name : PeerKind → Bytes
wire_name agent = ascii "agent"
wire_name desktop = ascii "desktop"

abbrev pub is_kind : PeerKind → PeerKind → Bool
is_kind agent agent = true
is_kind agent desktop = false
is_kind desktop agent = false
is_kind desktop desktop = true

-- `write_frame` and `read_frame` on one stream, whose state an error leaves behind too.
pub record Control (S : Type 0) : Type 0 where
  pub send_auth_init : AuthInit → S → Result (Unit {0}) × S
  pub send_auth_proof : AuthProof → S → Result (Unit {0}) × S
  pub send_register : Register → S → Result (Unit {0}) × S
  pub send_dial : Dial → S → Result (Unit {0}) × S
  pub read_challenge : S → Result Challenge × S
  pub read_auth_resp : S → Result AuthResp × S
  pub read_register_resp : S → Result RegisterResp × S
  pub read_dial_resp : S → Result DialResp × S

infixl 5 ◌>>=◌
-- A failed step ends the operation; the stream is passed on.
abbrev pub ◌>>=◌ : {S A B : Type 0} → Result A × S → (A × S → Result B × S) → Result B × S
(failed e, s) >>= next = (failed e, s)
(ok a, s) >>= next = next (a, s)

-- `None | Some("")` is no error.
unfoldable pub response_error : Option Bytes → Result (Unit {0})
response_error none = ok tt
response_error (some []) = ok tt
response_error (some (c ∷ code)) = failed (from_wire_code (c ∷ code))

unfoldable pub proof_transcript : RelayConfig → Bytes → Bytes → Bytes
proof_transcript cfg binding nonce = elim cfg.enrollment [
  | none ↦ transcript binding cfg.principal nonce
  | some token ↦ enrollment_transcript binding (canonical token.claims) nonce
]

abbrev pub principal_hint : RelayConfig → Bytes
principal_hint cfg = elim cfg.enrollment [ none ↦ cfg.principal | some token ↦ token.claims.peer ]

-- `response.version != Some(VERSION) || response.session_id.is_none()`
unfoldable pub has_session : AuthResp → Bool
has_session response = elim response.version [
  | none ↦ false
  | some v ↦ elim response.session_id [ none ↦ false | some id ↦ v == version ]
]

unfoldable pub require_kind : PeerKind → PeerKind → Bytes → Result (Unit {0})
require_kind kind expected operation =
    if is_kind kind expected
    then ok tt
    else failed (protocol (invalid_for_peer operation (wire_name kind)))

module _ {S : Type 0} (control : Control S) (sign : Bytes → Bytes → Bytes) where
  -- From the challenge on: its nonce has 32 bytes, and the proof signs the transcript.
  unfoldable pub answer : RelayConfig → Bytes → Challenge → S → Result (Unit {0}) × S
  answer cfg binding challenge s =
      if not (length challenge.nonce == 32)
      then (failed (protocol (invalid_nonce (length challenge.nonce))), s)
      else (control.send_auth_proof
            (record {
              signature = sign cfg.key_seed (proof_transcript cfg binding challenge.nonce);
            })
            s
          >>= λ sent. control.read_auth_resp sent.1 >>= λ answered.
              (response_error answered.0.err, answered.1) >>= λ passed.
              if has_session answered.0
              then (ok tt, passed.1)
              else (failed (protocol no_session), passed.1))

  unfoldable pub authenticate : RelayConfig → PeerKind → Bytes → S → Result (Unit {0}) × S
  unfolding answer
  authenticate cfg kind binding s =
      control.send_auth_init
        (record {
          versions = version ∷ [];
          kind = wire_name kind;
          principal_hint = principal_hint cfg;
          enrollment = cfg.enrollment;
          chain = cfg.chain;
        })
        s
      >>= λ sent. control.read_challenge sent.1 >>= λ got. answer cfg binding got.0 got.1

module _ {S : Type 0} (control : Control S) where
  abbrev token_or_fault : Option Bytes → Result Bytes
  token_or_fault none = failed (protocol no_reconnect_token)
  token_or_fault (some token) = ok token

  unfoldable pub register : PeerKind → Bytes → Bytes → S → Result Bytes × S
  register kind target_id proto s = (require_kind kind agent (ascii "register"), s) >>= λ allowed.
      control.send_register (record { target_id = target_id; proto = proto }) allowed.1 >>= λ sent.
      control.read_register_resp sent.1 >>= λ answered.
      (response_error answered.0.err, answered.1) >>= λ passed.
      (token_or_fault answered.0.reconnect_token, passed.1)

  -- `dial` on the stream that was opened for it.
  unfoldable pub dial : PeerKind → Bytes → Bytes → ℕ → S → Result (Unit {0}) × S
  dial kind target_id proto port s = (require_kind kind desktop (ascii "dial"), s) >>= λ allowed.
      control.send_dial (record { target_id = target_id; proto = proto; port = port }) allowed.1
      >>= λ sent.
          control.read_dial_resp sent.1 >>= λ answered. (response_error answered.0.err, answered.1)
