-- ===== src/Relay/Layout.antt =====
-- The signed byte layouts: each determines all that is signed, and no two layouts share a byte
-- string, so a signature made for one purpose does not pass for another.
use cross_xagent.Base.{
  ◌^◌, ◌<◌, ◌≡◌, ◌≢◌, ap, List, [], ◌∷◌, arith, Bytes, be_bytes, be_bytes-injective,
  length-be_bytes, length,
}
use cross_xagent.Relay.Chunk.{append_chunks-injective, FitsU32}
use cross_xagent.Relay.Auth.{domain_tag, enroll_domain_tag, transcript, enrollment_transcript}
use cross_xagent.Relay.Enroll
use cross_xagent.Relay.Enroll.{ℤ, pos, negsuc, IsI64, bits, Claims, canonical, scope_block}
use cross_xagent.Relay.Cert
use cross_xagent.Relay.Cert.{Cert, canonical_cert}

head-eq : (x y : Bytes) (xs ys : List Bytes) → x ∷ xs ≡ y ∷ ys → x ≡ y
head-eq x y xs ys e = cc

-- A transcript determines the relay binding, the principal and the nonce, where these fit their
-- length prefixes.
pub transcript-injective :
    (d p n d' p' n' : Bytes)
    → FitsU32 (d ∷ p ∷ n ∷ d' ∷ p' ∷ n' ∷ [])
    → transcript d p n ≡ transcript d' p' n'
    → (d ≡ d') × (p ≡ p') × (n ≡ n')
unfolding transcript
transcript-injective d p n d' p' n' h e =
    let same =
      append_chunks-injective (domain_tag ∷ d ∷ p ∷ n ∷ []) (domain_tag ∷ d' ∷ p' ∷ n' ∷ [])
        (omega arith) (omega arith) e in
    (cc same, cc same, cc same)

-- No transcript of the bare identity is one of an enrollment, where the parts fit their length
-- prefixes.
pub transcript-ne-enrollment_transcript :
    (d p n d' c n' : Bytes)
    → FitsU32 (d ∷ p ∷ n ∷ d' ∷ c ∷ n' ∷ [])
    → transcript d p n ≢ enrollment_transcript d' c n'
unfolding transcript enrollment_transcript
transcript-ne-enrollment_transcript d p n d' c n' h e =
    let same =
      append_chunks-injective (domain_tag ∷ d ∷ p ∷ n ∷ []) (enroll_domain_tag ∷ d' ∷ c ∷ n' ∷ [])
        (omega arith) (omega arith) e in
    absurd (omega (arith, ap length (head-eq _ _ _ _ same)))

bits-lt : (z : ℤ) → IsI64 z → bits z < 256 ^ 8
bits-lt (pos n) h = omega arith
bits-lt (negsuc n) h = omega arith

bits-injective : (y z : ℤ) → IsI64 y → IsI64 z → bits y ≡ bits z → y ≡ z
bits-injective (pos a) (pos b) ha hb e = ap pos e
bits-injective (pos a) (negsuc b) ha hb e = absurd (omega arith)
bits-injective (negsuc a) (pos b) ha hb e = absurd (omega arith)
bits-injective (negsuc a) (negsuc b) ha hb e = ap negsuc (omega arith)

pub exp-injective :
    (y z : ℤ) → IsI64 y → IsI64 z → be_bytes 8 (bits y) ≡ be_bytes 8 (bits z) → y ≡ z
exp-injective y z hy hz e =
    bits-injective y z hy hz
      (be_bytes-injective 8 (bits y) (bits z) (bits-lt y hy) (bits-lt z hz) e)

-- The fields that a certificate's signature covers, as chunks.
abbrev pub cert_fields : Cert → List Bytes
cert_fields c =
    Cert.tag
    ∷ c.subject_pub
    ∷ c.subject_id
    ∷ c.role
    ∷ c.org_namespace
    ∷ be_bytes 8 (bits c.exp)
    ∷ c.issuer_id
    ∷ []

-- Every field of the certificate is short enough for its prefix.
abbrev pub CertFits : Cert → Type 0
CertFits c =
    FitsU32 (c.subject_pub ∷ c.subject_id ∷ c.role ∷ c.org_namespace ∷ c.issuer_id ∷ [])
    × IsI64 c.exp

cert_fields-FitsU32 : (c : Cert) → CertFits c → FitsU32 (cert_fields c)
cert_fields-FitsU32 c h = omega (arith, length-be_bytes 8 (bits c.exp))

-- The canonical bytes of certificates whose fields fit their prefixes determine every field but
-- the signature.
pub canonical_cert-injective :
    (c d : Cert)
    → CertFits c
    → CertFits d
    → canonical_cert c ≡ canonical_cert d
    → record c { sig = d.sig } ≡ d
unfolding canonical_cert
canonical_cert-injective c d hc hd e =
    let same =
      append_chunks-injective (cert_fields c) (cert_fields d) (cert_fields-FitsU32 c hc)
        (cert_fields-FitsU32 d hd) e in
    let exp : c.exp ≡ d.exp = exp-injective c.exp d.exp hc.1 hd.1 (cc same) in
    ground (arith, same, exp)

-- The scope block of a set of claims is short enough too.
abbrev pub ClaimsFit : Claims → Type 0
ClaimsFit c =
    FitsU32 (c.project ∷ c.peer ∷ c.kind ∷ c.pub_key ∷ scope_block c.scope ∷ [])
    × (c.v < 2 ^ 16)
    × IsI64 c.exp

abbrev pub claim_fields : Claims → List Bytes
claim_fields c =
    Enroll.tag
    ∷ be_bytes 2 c.v
    ∷ c.project
    ∷ c.peer
    ∷ c.kind
    ∷ c.pub_key
    ∷ scope_block c.scope
    ∷ be_bytes 8 (bits c.exp)
    ∷ []

pub claim_fields-FitsU32 : (c : Claims) → ClaimsFit c → FitsU32 (claim_fields c)
claim_fields-FitsU32 c h = omega (arith, length-be_bytes 2 c.v, length-be_bytes 8 (bits c.exp))

-- A certificate and an enrollment whose parts fit their prefixes have different canonical bytes.
canonical_cert-ne-canonical :
    (c : Cert) (d : Claims) → CertFits c → ClaimsFit d → canonical_cert c ≢ canonical d
unfolding canonical_cert canonical
canonical_cert-ne-canonical c d hc hd e =
    let same =
      append_chunks-injective (cert_fields c) (claim_fields d) (cert_fields-FitsU32 c hc)
        (claim_fields-FitsU32 d hd) e in
    absurd (omega (arith, ap length (head-eq _ _ _ _ same)))
