-- ===== src/Relay/Protocol.antt =====
-- The messages of crates/crossx-relay-rs/src/protocol.rs. Their JSON is serde's.
use cross_xagent.Base.{ℕ, Option, List, Bytes}
use cross_xagent.Relay.Enroll.{Token}
use cross_xagent.Relay.Cert.{Cert}

abbrev pub version : ℕ
version = 1

pub record AuthInit : Type 0 where
  pub versions : List ℕ
  pub kind : Bytes
  pub principal_hint : Bytes
  pub enrollment : Option Token
  pub chain : List Cert

pub record Challenge : Type 0 where
  pub nonce : Bytes

pub record AuthProof : Type 0 where
  pub signature : Bytes

pub record AuthResp : Type 0 where
  pub session_id : Option Bytes
  pub version : Option ℕ
  pub err : Option Bytes

pub record Register : Type 0 where
  pub target_id : Bytes
  pub proto : Bytes

pub record RegisterResp : Type 0 where
  pub reconnect_token : Option Bytes
  pub err : Option Bytes

pub record Dial : Type 0 where
  pub target_id : Bytes
  pub proto : Bytes
  pub port : ℕ

pub record DialResp : Type 0 where
  pub err : Option Bytes

pub record ProxyHeader : Type 0 where
  pub tunnel_id : Bytes
  pub proto : Bytes
  pub port : ℕ
  pub client_addr : Option Bytes
