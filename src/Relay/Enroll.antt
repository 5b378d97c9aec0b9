-- ===== src/Relay/Enroll.antt =====
-- crates/crossx-relay-rs/src/enroll.rs: the enrollment claims, their canonical bytes, and `verify`.
-- Strings are their UTF-8 bytes. Ed25519 comes from ed25519-dalek and is a parameter.
use cross_xagent.Base.{
  ℕ, ◌-◌, ◌^◌, ◌<◌, Bool, true, false, ◌&&◌, ◌||◌, not, List, [], ◌∷◌, Bytes, be_bytes, length, ltb,
  leb, ◌==◌, if◌then◌else◌,
}
use cross_xagent.Relay.Chunk.{append_chunk, append_chunks, length_u32}
use cross_xagent.Relay.Auth.{ascii}

-- An i64; `negsuc n` is -(n + 1).
pub data ℤ : Type 0 where
  pos : ℕ → ℤ
  negsuc : ℕ → ℤ

abbrev pub IsI64 : ℤ → Type 0
IsI64 (pos n) = n < 2 ^ 63
IsI64 (negsuc n) = n < 2 ^ 63

-- The bit pattern of an i64.
abbrev pub bits : ℤ → ℕ
bits (pos n) = n
bits (negsuc n) = 2 ^ 64 - 1 - n

abbrev pub leℤ : ℤ → ℤ → Bool
leℤ (pos a) (pos b) = leb a b
leℤ (pos a) (negsuc b) = false
leℤ (negsuc a) (pos b) = true
leℤ (negsuc a) (negsuc b) = leb b a

abbrev pub tag : Bytes
tag = ascii "crossx-relay/enroll/v1"

pub record Claims : Type 0 where
  pub v : ℕ
  pub project : Bytes
  pub peer : Bytes
  pub kind : Bytes
  pub pub_key : Bytes
  pub scope : List Bytes
  pub exp : ℤ

pub record Token : Type 0 where
  pub claims : Claims
  pub sig : Bytes

pub data EnrollError : Type 0 where
  invalid_signature malformed : EnrollError

pub data Verified : Type 0 where
  verified : Claims → Verified
  rejected : EnrollError → Verified

-- Byte-wise lexical order.
unfoldable pub lex_le : Bytes → Bytes → Bool
lex_le [] ys = true
lex_le (x ∷ xs) [] = false
lex_le (x ∷ xs) (y ∷ ys) = ltb x y || ((x == y) && lex_le xs ys)

unfoldable pub insert_lex : Bytes → List Bytes → List Bytes
insert_lex x [] = x ∷ []
insert_lex x (y ∷ ys) = if lex_le x y then x ∷ y ∷ ys else y ∷ insert_lex x ys

unfoldable pub sort_scope : List Bytes → List Bytes
unfolding insert_lex lex_le
sort_scope [] = []
sort_scope (x ∷ xs) = insert_lex x (sort_scope xs)

-- u32_be(count) and the chunks of the sorted targets.
unfoldable pub scope_block : List Bytes → Bytes
scope_block scope = append_chunks (be_bytes 4 (length_u32 (length scope))) (sort_scope scope)

unfoldable pub canonical : Claims → Bytes
canonical claims =
    let out = append_chunk [] tag in
    let out = append_chunk out (be_bytes 2 claims.v) in
    let out = append_chunk out claims.project in
    let out = append_chunk out claims.peer in
    let out = append_chunk out claims.kind in
    let out = append_chunk out claims.pub_key in
    let out = append_chunk out (scope_block claims.scope) in
    append_chunk out (be_bytes 8 (bits claims.exp))

-- `VerifyingKey::from_bytes` on 32 bytes, and `verify_strict` of a key, a message and a signature.
pub record Ed25519 : Type 0 where
  pub from_bytes : Bytes → Bool
  pub verify_strict : Bytes → Bytes → Bytes → Bool

module _ (ed : Ed25519) where
  unfoldable pub verify : Token → Bytes → Verified
  verify token authority_pub =
      if not (ed.from_bytes authority_pub)
      then rejected malformed
      else if not (length token.sig == 64)
      then rejected malformed
      else if not (ed.verify_strict authority_pub (canonical token.claims) token.sig)
      then rejected invalid_signature
      else verified token.claims
