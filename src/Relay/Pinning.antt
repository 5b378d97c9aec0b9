-- ===== src/Relay/Pinning.antt =====
-- A session of `Peer::connect` is bound to the pinned certificate, and a connection that fails leaves
-- no driver behind.
use cross_xagent.Base.{
  ◌≡◌, ◌≢◌, refl, sym, ap, ◌∙◌, Bool, true, not, Bool-cases, inl, inr, ◌⊎◌, some, Option-cases,
  List, [], ◌∷◌, Bytes, beq_bytes→eq, all,
}
use cross_xagent.Relay.Errors.{RelayError, Result, failed, ok}
use cross_xagent.Relay.Peer.{RelayConfig, PeerKind, Control, authenticate}
use cross_xagent.Relay.Connect.{
  ServerName, server_name, verify_server_cert, Handshake, socket_failed, tls_failed, connected,
  Rustls, binding_of, connect_pinned, connect_tls, Driver, not_spawned, running, aborted, connect,
}

-- A handshake that succeeds has shown the server's first certificate to the verifier.
abbrev pub Verifies : Rustls → Type 0
Verifies rustls =
    (verify : Bytes → Bool) (name : ServerName) (addr leaf : Bytes) (chain : List Bytes)
    → rustls.handshake verify name addr ≡ connected (leaf ∷ chain)
    → verify leaf ≡ true

binding_of-ok :
    (rustls : Rustls) (h : Handshake) (binding : Bytes)
    → binding_of rustls h ≡ ok binding
    → (leaf : Bytes) × (chain : List Bytes) × (h ≡ connected (leaf ∷ chain))
      × (rustls.relay_binding leaf ≡ binding)
binding_of-ok rustls socket_failed binding h = cc
binding_of-ok rustls tls_failed binding h = cc
binding_of-ok rustls (connected []) binding h = cc
binding_of-ok rustls (connected (leaf ∷ chain)) binding h = (leaf, chain, refl, cc)

Result-cases :
    {A : Type 0} (r : Result A) → ((e : RelayError) × (r ≡ failed e)) ⊎ ((a : A) × (r ≡ ok a))
Result-cases (failed e) = inl (e, refl)
Result-cases (ok a) = inr (a, refl)

connect_pinned-ok :
    (rustls : Rustls) (addr pinned : Bytes) (others : List Bytes) (binding : Bytes)
    → Verifies rustls
    → connect_pinned rustls addr (pinned ∷ others) ≡ ok binding
    → binding ≡ rustls.relay_binding pinned
unfolding connect_pinned verify_server_cert
connect_pinned-ok rustls addr pinned others binding verifies h0 =
    elim (Bool-cases (not (all rustls.is_root (pinned ∷ others)))) [
      | inl e ↦ absurd (cc (rw (connect_pinned, e) at h0))
      | inr e ↦ elim (Bool-cases (not (rustls.build_verifier (pinned ∷ others)))) [
        | inl d ↦ absurd (cc (rw (connect_pinned, e, d) at h0))
        | inr d ↦ elim (Result-cases (server_name rustls.names addr)) [
          | inl (error, n) ↦ absurd (cc (rw (connect_pinned, e, d, n) at h0))
          | inr (name, n) ↦
              let shown = rw (connect_pinned, e, d, n) at h0 in
              let (leaf, chain, met, same) =
                binding_of-ok rustls (rustls.handshake (verify_server_cert pinned) name addr)
                  binding shown in
              let pin =
                beq_bytes→eq leaf pinned
                  (verifies (verify_server_cert pinned) name addr leaf chain met) in
              sym same ∙ ap rustls.relay_binding pin
        ]
      ]
    ]

-- The first certificate of the configured PEM, to which a binding belongs.
pub record Pinned (rustls : Rustls) (cfg : RelayConfig) (binding : Bytes) : Type 0 where
  pub leaf : Bytes
  pub others : List Bytes
  pub parsed : rustls.parse_pem cfg.root_cert_pem ≡ some (leaf ∷ others)
  pub bound : binding ≡ rustls.relay_binding leaf

Pinned-of :
    (rustls : Rustls) (cfg : RelayConfig) (binding : Bytes) (certificates : List Bytes)
    → Verifies rustls
    → rustls.parse_pem cfg.root_cert_pem ≡ some certificates
    → connect_pinned rustls cfg.addr certificates ≡ ok binding
    → Pinned rustls cfg binding
Pinned-of rustls cfg binding [] verifies e h = absurd (unfold connect_pinned in cc h)
Pinned-of rustls cfg binding (leaf ∷ others) verifies e h = record {
  leaf = leaf;
  others = others;
  parsed = e;
  bound = connect_pinned-ok rustls cfg.addr leaf others binding verifies h;
}

connect_tls-Pinned :
    (rustls : Rustls) (cfg : RelayConfig) (binding : Bytes)
    → Verifies rustls
    → connect_tls rustls cfg ≡ ok binding
    → Pinned rustls cfg binding
unfolding connect_tls
connect_tls-Pinned rustls cfg binding verifies h =
    elim (Option-cases (rustls.parse_pem cfg.root_cert_pem)) [
      | inl e ↦ absurd (cc (rw (connect_tls, e) at h))
      | inr (certificates, e) ↦
          Pinned-of rustls cfg binding certificates verifies e (rw (connect_tls, e) at h)
    ]

module _ {S : Type 0} (rustls : Rustls) (control : Control S) (sign : Bytes → Bytes → Bytes) where
  -- How `connect` ends: with an error and no driver that still runs, or with a driver that runs and a
  -- session authenticated under the binding of the pinned certificate.
  pub data Ended (cfg : RelayConfig) (kind : PeerKind)
      : Result (PeerKind × S) × Driver → Type 0 where
    refused :
        (e : RelayError) (driver : Driver) → driver ≢ running → Ended cfg kind (failed e, driver)
    established :
        (binding : Bytes) (s s' : S)
        → Pinned rustls cfg binding
        → authenticate control sign cfg kind binding s ≡ (ok tt, s')
        → Ended cfg kind (ok (kind, s'), running)

  -- Where rustls shows the server's certificate to the verifier, `connect` ends with an error and no
  -- running driver, or with a running driver and a session that was authenticated under the binding
  -- of the first certificate of the configured PEM.
  pub connect-Ended :
      (cfg : RelayConfig) (kind : PeerKind) (requested_stream : Result S)
      → Verifies rustls
      → Ended cfg kind (connect rustls control sign cfg kind requested_stream)
  unfolding connect
  connect-Ended cfg kind requested_stream verifies = elim (Result-cases (connect_tls rustls cfg)) [
    | inl (e, h) ↦ rw (connect, h) (refused e not_spawned (λ same. cc))
    | inr (binding, h) ↦
        rw (connect, h)
          (elim (Result-cases requested_stream) [
            | inl (e, d) ↦ rw d (refused e aborted (λ same. cc))
            | inr (s, d) ↦
                let r = authenticate control sign cfg kind binding s in
                rw d (elim (Result-cases r.0) [
                  | inl (e, a) ↦ rw a (refused e aborted (λ same. cc))
                  | inr (u, a) ↦
                      let whole : r ≡ (ok tt, r.1) = ap (λ x. (x, r.1)) a in
                      rw a (
                        established binding s r.1 (connect_tls-Pinned rustls cfg binding verifies h)
                          whole)
                ])
          ])
  ]
