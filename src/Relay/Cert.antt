-- ===== src/Relay/Cert.antt =====
-- crates/crossx-relay-rs/src/cert.rs: certificates, their canonical bytes, and the verification of a
-- chain up to a trusted root.
use cross_xagent.Base.{
  ℕ, Bool, true, false, ◌&&◌, ◌||◌, not, Option, none, some, List, [], ◌∷◌, ◌++◌, Bytes, be_bytes,
  beq_bytes, length, all, ◌==◌, if◌then◌else◌,
}
use cross_xagent.Relay.Chunk.{append_chunk}
use cross_xagent.Relay.Auth.{ascii}
use cross_xagent.Relay.Enroll.{
  ℤ, pos, bits, leℤ, Claims, Token, Verified, verified, rejected, Ed25519, verify,
}

abbrev pub tag : Bytes
tag = ascii "crossx-relay/cert/v1"

abbrev pub role_issuing : Bytes
role_issuing = ascii "issuing"

abbrev pub role_org : Bytes
role_org = ascii "org"

abbrev pub role_member : Bytes
role_member = ascii "member"

pub record Cert : Type 0 where
  pub subject_pub : Bytes
  pub subject_id : Bytes
  pub role : Bytes
  pub org_namespace : Bytes
  pub exp : ℤ
  pub issuer_id : Bytes
  pub sig : Bytes

-- `(cert.exp as u64).to_be_bytes()` are the bytes of the bit pattern.
unfoldable pub canonical_cert : Cert → Bytes
canonical_cert cert =
    let out = append_chunk [] tag in
    let out = append_chunk out cert.subject_pub in
    let out = append_chunk out cert.subject_id in
    let out = append_chunk out cert.role in
    let out = append_chunk out cert.org_namespace in
    let out = append_chunk out (be_bytes 8 (bits cert.exp)) in append_chunk out cert.issuer_id

-- `RootMap`: a later `add` of the same id replaces the key.
abbrev pub RootMap : Type 0
RootMap = List (Bytes × Bytes)

unfoldable pub add : Bytes → Bytes → RootMap → RootMap
add id key [] = (id, key) ∷ []
add id key ((i, k) ∷ roots) = if beq_bytes i id then (i, key) ∷ roots else (i, k) ∷ add id key roots

unfoldable pub root : RootMap → Bytes → Option Bytes
root [] id = none
root ((i, k) ∷ roots) id = if beq_bytes i id then some k else root roots id

pub data ChainError : Type 0 where
  chain untrusted_root expired cross_org enroll : ChainError

pub data Outcome {ℓ} (A : Type ℓ) : Type ℓ where
  ok : A → Outcome A
  err : ChainError → Outcome A

infixl 5 ◌>>=◌ ◌>>◌
abbrev pub ◌>>=◌ {ℓ κ} : {A : Type ℓ} {B : Type κ} → Outcome A → (A → Outcome B) → Outcome B
ok a >>= f = f a
err e >>= f = err e

abbrev pub ◌>>◌ {ℓ} : {B : Type ℓ} → Outcome (Unit {0}) → Outcome B → Outcome B
m >> k = m >>= λ _. k

-- `if c { return Err(e) }`
abbrev pub fail_if : Bool → ChainError → Outcome (Unit {0})
fail_if true e = err e
fail_if false e = ok tt

-- `s.split('/')`: a text with no slash is one segment.
abbrev pub add_to_first : ℕ → List Bytes → List Bytes
add_to_first c [] = (c ∷ []) ∷ []
add_to_first c (seg ∷ segs) = (c ∷ seg) ∷ segs

unfoldable pub split : Bytes → List Bytes
split [] = [] ∷ []
split (c ∷ s) = if c == b'/' then [] ∷ split s else add_to_first c (split s)

abbrev pub clean_segment : Bytes → Bool
clean_segment seg =
    not (beq_bytes seg []) && (not (beq_bytes seg (ascii ".")) && not (beq_bytes seg (ascii "..")))

unfoldable pub clean_path : Bytes → Bool
clean_path s = not (beq_bytes s []) && all clean_segment (split s)

unfoldable pub starts_with : Bytes → Bytes → Bool
starts_with s [] = true
starts_with [] (p ∷ ps) = false
starts_with (c ∷ s) (p ∷ ps) = (c == p) && starts_with s ps

unfoldable pub within : Bytes → Bytes → Bool
within project ns =
    if not (clean_path project) || not (clean_path ns)
    then false
    else beq_bytes project ns || starts_with project (ns ++ (b'/' ∷ []))

-- `exp <= 0 || now_unix >= exp`
abbrev pub is_expired : ℤ → ℤ → Bool
is_expired now exp = leℤ exp (pos 0) || leℤ exp now

unfoldable pub check_expiry : ℤ → List Cert → Outcome (Unit {0})
check_expiry now [] = ok tt
check_expiry now (cert ∷ certs) =
    if is_expired now cert.exp then err expired else check_expiry now certs

abbrev pub root_or : Option Bytes → Outcome Bytes
root_or none = err untrusted_root
root_or (some key) = ok key

abbrev pub enroll_or : Verified → Outcome Claims
enroll_or (verified claims) = ok claims
enroll_or (rejected e) = err enroll

module _ (ed : Ed25519) where
  unfoldable pub verify_cert_sig : Cert → Bytes → Bool
  verify_cert_sig cert issuer_pub =
      if not (length issuer_pub == 32)
      then false
      else if not (ed.from_bytes issuer_pub)
      then false
      else if not (length cert.sig == 64)
      then false
      else ed.verify_strict issuer_pub (canonical_cert cert) cert.sig

module _ (ed : Ed25519) where
  -- `roots` is the store's `root`.
  unfoldable pub check_chain :
      Token → Cert → Cert → Cert → (Bytes → Option Bytes) → ℤ → Outcome Claims
  check_chain token member org issuing roots now = do
    fail_if
        (not (beq_bytes member.role role_member)
          || (not (beq_bytes org.role role_org) || not (beq_bytes issuing.role role_issuing)))
        chain
    check_expiry now (member ∷ org ∷ issuing ∷ [])
    fail_if
        (not (verify_cert_sig ed member org.subject_pub)
          || not (verify_cert_sig ed org issuing.subject_pub))
        chain
    root_pub ← root_or (roots issuing.issuer_id)
    fail_if (not (verify_cert_sig ed issuing root_pub)) untrusted_root
    fail_if
        (beq_bytes member.org_namespace []
          || not (beq_bytes member.org_namespace org.org_namespace))
        chain
    fail_if (not (length member.subject_pub == 32)) chain
    claims ← enroll_or (verify ed token member.subject_pub)
    fail_if (is_expired now claims.exp) expired
    fail_if (not (within claims.project member.org_namespace)) cross_org
    ok claims

  unfoldable pub verify_chain : Token → List Cert → (Bytes → Option Bytes) → ℤ → Outcome Claims
  unfolding check_chain
  verify_chain token (member ∷ org ∷ issuing ∷ []) roots now =
      check_chain token member org issuing roots now
  verify_chain token _ roots now = err chain
