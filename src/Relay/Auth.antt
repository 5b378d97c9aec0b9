-- ===== src/Relay/Auth.antt =====
-- crates/crossx-relay-rs/src/auth.rs: the byte strings that an authenticating peer signs.
use Prim.Native.Char.{code}
use Prim.Native.String.{String}
use cross_xagent.Base.{[], ◌∷◌, Bytes}
use cross_xagent.Relay.Chunk.{append_chunk}

-- The bytes of an ASCII literal.
abbrev pub ascii : String → Bytes
ascii String.[] = []
ascii (String.◌∷◌ c s) = code c ∷ ascii s

abbrev pub domain_tag : Bytes
domain_tag = ascii "crossx-relay/auth/v1"

abbrev pub enroll_domain_tag : Bytes
enroll_domain_tag = ascii "crossx-relay/auth/enroll-pop/v1"

unfoldable pub transcript : Bytes → Bytes → Bytes → Bytes
transcript cert_digest principal nonce =
    append_chunk (append_chunk (append_chunk (append_chunk [] domain_tag) cert_digest) principal)
      nonce

unfoldable pub enrollment_transcript : Bytes → Bytes → Bytes → Bytes
enrollment_transcript cert_digest canonical_claims nonce =
    append_chunk
      (append_chunk (append_chunk (append_chunk [] enroll_domain_tag) cert_digest) canonical_claims)
      nonce
