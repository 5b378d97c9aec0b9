-- ===== src/Agent/Credentials.antt =====
-- `load_peer_config` of crates/crossx-agent/src/relay.rs. The file system, base64 and serde_json are
-- parameters.
use cross_xagent.Base.{ℕ, Option, none, some, [], Bytes, length, ◌==◌, if◌then◌else◌, beq_bytes}
use cross_xagent.Relay.Enroll.{Token}
use cross_xagent.Agent.Config.{RelayConfig}

-- `std::fs::read` and `read_to_string` of a path, the decoding of the trimmed text of a key file, and
-- the parser of an enrollment.
pub record Reader : Type 0 where
  pub read : Bytes → Option Bytes
  pub read_to_string : Bytes → Option Bytes
  pub decode_trimmed : Bytes → Option Bytes
  pub parse_token : Bytes → Option Token

pub data LoadError : Type 0 where
  no_root_cert no_key_file bad_base64 no_enrollment bad_enrollment : LoadError
  seed_length : ℕ → LoadError

pub data Result (A : Type 0) : Type 0 where
  failed : LoadError → Result A
  ok : A → Result A

-- The fields that the function gives to the configuration of the peer.
pub record PeerConfig : Type 0 where
  pub addr : Bytes
  pub root_cert_pem : Bytes
  pub key_seed : Bytes
  pub principal : Bytes
  pub enrollment : Option Token

unfoldable pub load_enrollment : Reader → Bytes → Result (Option Token)
load_enrollment files path =
    if beq_bytes path [] then ok none else elim (files.read_to_string path) [
      | none ↦ failed no_enrollment
      | some json ↦ elim (files.parse_token json) [
        | none ↦ failed bad_enrollment
        | some token ↦ ok (some token)
      ]
    ]

unfoldable pub load_seed : Reader → Bytes → Result Bytes
load_seed files path = elim (files.read_to_string path) [
  | none ↦ failed no_key_file
  | some encoded ↦ elim (files.decode_trimmed encoded) [
    | none ↦ failed bad_base64
    | some seed ↦ if length seed == 32 then ok seed else failed (seed_length (length seed))
  ]
]

unfoldable pub load_peer_config : Reader → RelayConfig → Result PeerConfig
load_peer_config files cfg = elim (files.read cfg.root_cert) [
  | none ↦ failed no_root_cert
  | some pem ↦ elim (load_seed files cfg.key_file) [
    | failed e ↦ failed e
    | ok seed ↦ elim (load_enrollment files cfg.enrollment_file) [
      | failed e ↦ failed e
      | ok enrollment ↦ ok (record {
        addr = cfg.addr;
        root_cert_pem = pem;
        key_seed = seed;
        principal = cfg.principal;
        enrollment = enrollment;
      })
    ]
  ]
]
