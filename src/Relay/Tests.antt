-- ===== src/Relay/Tests.antt =====
-- Runs of the relay client's credentials on small inputs, and the theorems at concrete inputs.
use cross_xagent.Base.{
  ◌++◌, none, ℕ, ◌≡◌, ◌≢◌, ◌↔◌, refl, sym, ap, ◌∙◌, true, if◌then◌else◌, Bool-cases, inl, inr,
  Option, some, List, [], ◌∷◌, arith, Bytes, le_bytes, be_bytes,
}
use mathlib.Core.List.{Perm}
use mathlib.Core.List.Perm
use cross_xagent.Relay.Chunk.{append_chunk}
use cross_xagent.Relay.Auth.{ascii, transcript, enrollment_transcript}
use cross_xagent.Relay.Enroll.{
  pos, Claims, Token, Ed25519, sort_scope, scope_block, canonical, insert_lex, lex_le, verify,
}
use cross_xagent.Relay.Cert.{
  Cert, ok, role_member, role_org, role_issuing, canonical_cert, verify_cert_sig, verify_chain,
  check_chain, check_expiry, split, clean_path, starts_with, within,
}
use cross_xagent.Relay.Errors.{Result}
use cross_xagent.Relay.Protocol.{Challenge}
use cross_xagent.Relay.Frame.{Json, write_frame, read_frame}
use cross_xagent.Relay.Peer.{agent, RelayConfig, Control, answer, has_session, response_error}
use cross_xagent.Relay.Connect.{connected, tls_failed, Rustls, connect}
use cross_xagent.Relay.Pinning.{Verifies, Ended, connect-Ended}
use cross_xagent.Relay.Framing.{read_frame-write_frame}
use cross_xagent.Relay.Session.{Authenticated, answer-Authenticated}
use cross_xagent.Relay.Layout.{
  transcript-injective, transcript-ne-enrollment_transcript, canonical_cert-injective, ClaimsFit,
}
use cross_xagent.Relay.Scope.{canonical-Perm, canonical-injective}
use cross_xagent.Relay.Within.{IsUnder, within_iff}
use cross_xagent.Relay.Authority.{IsAuthorized, verify_chain_sound}

-- Everything that a run computes with.
runs : Unit {0}
unfolding le_bytes be_bytes append_chunk transcript enrollment_transcript sort_scope scope_block
    insert_lex lex_le canonical verify canonical_cert verify_cert_sig verify_chain check_chain
    check_expiry split clean_path starts_with within
runs = tt

-- A signature scheme that accepts every signature.
abbrev trusting : Ed25519
trusting = record { from_bytes = λ k. true; verify_strict = λ k m s. true }

abbrev zeros : ℕ → Bytes
zeros ℕ.zero = []
zeros (ℕ.suc n) = 0 ∷ zeros n

abbrev cert_of : Bytes → Cert
cert_of role = record {
  subject_pub = zeros 32;
  subject_id = ascii "id";
  role = role;
  org_namespace = ascii "org";
  exp = pos 9;
  issuer_id = ascii "root";
  sig = zeros 64;
}

abbrev one : Bytes
one = 1 ∷ []

abbrev two : Bytes
two = 2 ∷ []

abbrev three : Bytes
three = 3 ∷ []

abbrev claims : Claims
claims = record {
  v = 1;
  project = ascii "org/a";
  peer = ascii "p";
  kind = ascii "agent";
  pub_key = zeros 2;
  scope = ascii "b" ∷ ascii "a" ∷ [];
  exp = pos 9;
}

abbrev swapped : Claims
swapped = record claims { scope = ascii "a" ∷ ascii "b" ∷ [] }

abbrev token : Token
token = record { claims = claims; sig = zeros 64 }

abbrev roots : Bytes → Option Bytes
roots id = some (zeros 32)

accepted :
    verify_chain trusting token
      (cert_of role_member ∷ cert_of role_org ∷ cert_of role_issuing ∷ [])
      roots
      (pos 5)
    ≡ ok claims
unfolding runs
accepted = refl

verify_chain_sound_example :
    (claims ≡ claims)
    × IsAuthorized trusting token
        (cert_of role_member)
        (cert_of role_org)
        (cert_of role_issuing)
        roots
        (pos 5)
verify_chain_sound_example =
    verify_chain_sound trusting token (cert_of role_member) (cert_of role_org)
      (cert_of role_issuing) roots (pos 5) claims accepted

canonical_cert-injective_example : cert_of role_org ≡ cert_of role_org
canonical_cert-injective_example =
    canonical_cert-injective (cert_of role_org) (cert_of role_org) (omega arith) (omega arith) refl

claims-fit : ClaimsFit claims
unfolding runs
claims-fit = omega arith

swapped-fit : ClaimsFit swapped
unfolding runs
swapped-fit = omega arith

same_bytes : canonical claims ≡ canonical swapped
unfolding runs
same_bytes = refl

canonical-injective_example :
    (record claims { scope = swapped.scope } ≡ swapped) × Perm claims.scope swapped.scope
canonical-injective_example =
    canonical-injective claims swapped claims-fit swapped-fit (omega arith) (omega arith) same_bytes

canonical-Perm_example : canonical claims ≡ canonical swapped
canonical-Perm_example =
    canonical-Perm claims (ascii "a" ∷ ascii "b" ∷ []) (Perm.swap (ascii "a") (ascii "b") [])

transcript-injective_example : (one ≡ one) × (two ≡ two) × (three ≡ three)
transcript-injective_example = transcript-injective one two three one two three (omega arith) refl

transcript-ne-enrollment_transcript_example :
    transcript one two three ≢ enrollment_transcript one two three
transcript-ne-enrollment_transcript_example =
    transcript-ne-enrollment_transcript one two three one two three (omega arith)

within_iff_example : (within (ascii "org/a") (ascii "org") ≡ true) ↔ (
    (clean_path (ascii "org/a") ≡ true)
    × (clean_path (ascii "org") ≡ true)
    × IsUnder (ascii "org/a") (ascii "org"))
within_iff_example = within_iff (ascii "org/a") (ascii "org")

-- An envelope that is its payload.
abbrev bare : Json Bytes Bytes
bare = record {
  to_vec = λ t payload. some payload;
  from_slice = λ envelope. some (one, envelope);
  from_value = some;
}

two_written : write_frame bare one two ≡ Result.ok (0 ∷ 0 ∷ 0 ∷ 1 ∷ 2 ∷ [])
unfolding write_frame be_bytes le_bytes
two_written = refl

read_frame-write_frame_example :
    read_frame bare one ((0 ∷ 0 ∷ 0 ∷ 1 ∷ 2 ∷ []) ++ three) ≡ Result.ok (two, three)
read_frame-write_frame_example =
    read_frame-write_frame bare one two (0 ∷ 0 ∷ 0 ∷ 1 ∷ 2 ∷ []) three
      (λ envelope e. (envelope, refl, sym e)) two_written

-- A relay that agrees to everything.
abbrev agreeing : Control (Unit {0})
agreeing = record {
  send_auth_init = λ m s. (Result.ok tt, s);
  send_auth_proof = λ m s. (Result.ok tt, s);
  send_register = λ m s. (Result.ok tt, s);
  send_dial = λ m s. (Result.ok tt, s);
  read_challenge = λ s. (Result.ok (record { nonce = zeros 32 }), s);
  read_auth_resp =
      λ s. (Result.ok (record { session_id = some one; version = some 1; err = none }), s);
  read_register_resp = λ s. (Result.ok (record { reconnect_token = some one; err = none }), s);
  read_dial_resp = λ s. (Result.ok (record { err = none }), s);
}

abbrev relay_cfg : RelayConfig
relay_cfg = record {
  addr = [];
  root_cert_pem = [];
  key_seed = zeros 32;
  principal = ascii "p";
  enrollment = none;
  chain = [];
}

abbrev thirty_two : Challenge
thirty_two = record { nonce = zeros 32 }

agreed : (answer agreeing (λ key m. zeros 64) relay_cfg one thirty_two tt).0 ≡ Result.ok tt
unfolding answer response_error has_session
agreed = refl

answer-Authenticated_example :
    Authenticated agreeing (λ key m. zeros 64) relay_cfg one thirty_two tt
answer-Authenticated_example =
    answer-Authenticated agreeing (λ key m. zeros 64) relay_cfg one thirty_two tt agreed

-- A relay that shows one certificate to whatever verifies it.
abbrev showing_one : Rustls
showing_one = record {
  names = record { parse_socket_addr = some; try_from = λ host. none };
  parse_pem = λ pem. some (one ∷ []);
  is_root = λ certificate. true;
  build_verifier = λ certificates. true;
  handshake = λ verify name addr. if verify one then connected (one ∷ []) else tls_failed;
  relay_binding = λ certificate. zeros 32;
}

connected-injective :
    (leaf : Bytes) (chain : List Bytes)
    → connected (one ∷ []) ≡ connected (leaf ∷ chain)
    → one ≡ leaf
connected-injective leaf chain e = cc

showing_one-Verifies : Verifies showing_one
showing_one-Verifies verify name addr leaf chain h = elim (Bool-cases (verify one)) [
  | inl e ↦ ap verify (sym (connected-injective leaf chain (rw e at h))) ∙ e
  | inr e ↦ absurd (cc (rw e at h))
]

connect-Ended_example :
    Ended showing_one agreeing
      (λ key m. zeros 64)
      relay_cfg
      agent
      (connect showing_one agreeing (λ key m. zeros 64) relay_cfg agent (Result.ok tt))
connect-Ended_example =
    connect-Ended showing_one agreeing (λ key m. zeros 64) relay_cfg agent (Result.ok tt)
      showing_one-Verifies
