-- ===== src/Relay/Chains.antt =====
-- `verify_chain` of crates/crossx-relay-rs/src/cert.rs on any list: exactly which chains it accepts.
use cross_xagent.Base.{◌≡◌, Option, List, [], ◌∷◌, Bytes}
use cross_xagent.Relay.Enroll.{ℤ, Token, Ed25519}
use cross_xagent.Relay.Cert.{Cert}
use cross_xagent.Relay.Authority.{IsAuthorized}

module _ (ed : Ed25519) where
  -- The list is a member's certificate, an organisation's and an issuing one, and they are authorized.
  pub record IsAuthorizedChain (token : Token) (certs : List Cert) (roots : Bytes → Option Bytes)
      (now : ℤ) : Type 0 where
    pub member : Cert
    pub org : Cert
    pub issuing : Cert
    pub three_certs : certs ≡ member ∷ org ∷ issuing ∷ []
    pub authorized : IsAuthorized ed token member org issuing roots now
