-- ===== src/Relay/Checks.antt =====
-- What the tests of `verify_chain` decide, said without them: the order of the integers, the
-- signatures with the shapes of their keys, and the segments of the paths.
use cross_xagent.Base.{
  ◌<◌, ◌≡◌, ◌≢◌, refl, ◌↔◌, true, false, not, List, [], ◌∷◌, arith, Bytes, all, beq_bytes,
  beq_bytes_refl, beq_bytes→eq, &&-eq-true, length, Bool-cases, inl, inr,
}
use cross_xagent.Relay.Auth.{ascii}
use cross_xagent.Relay.Enroll.{ℤ, pos, negsuc, leℤ, Token, Ed25519, canonical, verified, verify}
use cross_xagent.Relay.Cert.{
  Cert, canonical_cert, split, clean_segment, clean_path, within, is_expired, verify_cert_sig,
}
use cross_xagent.Relay.Within.{IsUnder, within_iff}

-- The strict order of the integers.
abbrev pub IsBefore : ℤ → ℤ → Type 0
IsBefore (pos a) (pos b) = a < b
IsBefore (pos a) (negsuc b) = ⊥
IsBefore (negsuc a) (pos b) = Unit
IsBefore (negsuc a) (negsuc b) = b < a

leℤ-false : (a b : ℤ) → leℤ a b ≡ false → IsBefore b a
leℤ-false (pos a) (pos b) h = ground (arith, h)
leℤ-false (pos a) (negsuc b) h = tt
leℤ-false (negsuc a) (pos b) h = cc
leℤ-false (negsuc a) (negsuc b) h = ground (arith, h)

leℤ-of_before : (a b : ℤ) → IsBefore b a → leℤ a b ≡ false
leℤ-of_before (pos a) (pos b) h = ground (arith, h)
leℤ-of_before (pos a) (negsuc b) h = refl
leℤ-of_before (negsuc a) (pos b) h = absurd h
leℤ-of_before (negsuc a) (negsuc b) h = ground (arith, h)

-- The date is after the epoch, and after now.
abbrev pub IsLive : ℤ → ℤ → Type 0
IsLive now exp = IsBefore (pos 0) exp × IsBefore now exp

pub is_expired-IsLive : (now exp : ℤ) → (is_expired now exp ≡ false) ↔ IsLive now exp
is_expired-IsLive now exp = (
  λ h. (leℤ-false exp (pos 0) (ground arith), leℤ-false exp now (ground arith)),
  λ h. rw (leℤ-of_before exp (pos 0) h.0, leℤ-of_before exp now h.1) refl,
)

module _ (ed : Ed25519) where
  -- The key is 32 bytes of a point, and the 64 bytes are its signature of the message.
  abbrev pub IsSignature : Bytes → Bytes → Bytes → Type 0
  IsSignature key message sig =
      (ed.from_bytes key ≡ true) × (length sig ≡ 64) × (ed.verify_strict key message sig ≡ true)

  abbrev pub IsSignedBy : Cert → Bytes → Type 0
  IsSignedBy cert key = (length key ≡ 32) × IsSignature key (canonical_cert cert) cert.sig

  pub verify_cert_sig_iff :
      (cert : Cert) (key : Bytes) → (verify_cert_sig ed cert key ≡ true) ↔ IsSignedBy cert key
  unfolding verify_cert_sig
  verify_cert_sig_iff cert key = (λ h. ground (arith, h), λ h. ground (arith, h))

  pub verify_iff :
      (token : Token) (key : Bytes)
      → (verify ed token key ≡ verified token.claims)
        ↔ IsSignature key (canonical token.claims) token.sig
  unfolding verify
  verify_iff token key = (λ h. ground (arith, h), λ h. ground (arith, h))

-- No segment is empty or leads to its own place or a higher one.
abbrev pub AreClean : List Bytes → Type 0
AreClean [] = Unit
AreClean (seg ∷ segs) = (seg ≢ []) × (seg ≢ ascii ".") × (seg ≢ ascii "..") × AreClean segs

beq_bytes-ne : (a b : Bytes) → not (beq_bytes a b) ≡ true → a ≢ b
beq_bytes-ne a b h e = let same : beq_bytes a b ≡ true = rw e (beq_bytes_refl b) in cc (h, same)

beq_bytes-of_ne : (a b : Bytes) → a ≢ b → not (beq_bytes a b) ≡ true
beq_bytes-of_ne a b ne = elim (Bool-cases (beq_bytes a b)) [
  | inl e ↦ absurd (ne (beq_bytes→eq a b e))
  | inr e ↦ rw e refl
]

all-AreClean : (segs : List Bytes) → all clean_segment segs ≡ true → AreClean segs
all-AreClean [] h = tt
all-AreClean (seg ∷ segs) h =
    let (here, there) = &&-eq-true (clean_segment seg) (all clean_segment segs) h in
    let (named, dots) = &&-eq-true (not (beq_bytes seg [])) _ here in
    let (one, two) = &&-eq-true (not (beq_bytes seg (ascii "."))) _ dots in
    (
      beq_bytes-ne seg [] named,
      beq_bytes-ne seg (ascii ".") one,
      beq_bytes-ne seg (ascii "..") two,
      all-AreClean segs there,
    )

all-of_clean : (segs : List Bytes) → AreClean segs → all clean_segment segs ≡ true
all-of_clean [] h = refl
all-of_clean (seg ∷ segs) h =
    rw
      (
        beq_bytes-of_ne seg [] h.0,
        beq_bytes-of_ne seg (ascii ".") h.1,
        beq_bytes-of_ne seg (ascii "..") h.2,
        all-of_clean segs h.3,
      )
      refl

clean_path_iff : (s : Bytes) → (clean_path s ≡ true) ↔ AreClean (split s)
unfolding clean_path split
clean_path_iff [] = (λ h. cc, λ h. absurd (h.0 refl))
clean_path_iff (c ∷ s) = (λ h. all-AreClean (split (c ∷ s)) h, λ h. all-of_clean (split (c ∷ s)) h)

-- Both paths are clean, and the segments of the namespace are the first ones of the project.
abbrev pub IsInside : Bytes → Bytes → Type 0
IsInside project ns = AreClean (split project) × AreClean (split ns) × IsUnder project ns

pub within-IsInside : (project ns : Bytes) → (within project ns ≡ true) ↔ IsInside project ns
within-IsInside project ns =
    let both = within_iff project ns in
    (
      λ h.
          let (a, b, under) = both.0 h in
          ((clean_path_iff project).0 a, (clean_path_iff ns).0 b, under),
      λ h. both.1 ((clean_path_iff project).1 h.0, (clean_path_iff ns).1 h.1, h.2),
    )
