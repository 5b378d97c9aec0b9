-- ===== src/Relay/Authority.antt =====
-- `verify_chain` of crates/crossx-relay-rs/src/cert.rs on three certificates: when they are authorized.
use cross_xagent.Base.{
  ◌≡◌, ◌≢◌, refl, sym, ◌∙◌, ◌↔◌, Bool, true, false, ◌||◌, not, Option, none, some, List, [], ◌∷◌,
  arith, Bytes, beq_bytes, beq_bytes_refl, beq_bytes→eq, length, ◌==◌, ==→eq,
}
use cross_xagent.Relay.Enroll.{
  ℤ, Claims, Token, Verified, verified, rejected, Ed25519, canonical, verify,
}
use cross_xagent.Relay.Checks.{
  IsLive, is_expired-IsLive, IsSignature, IsSignedBy, verify_cert_sig_iff, verify_iff, IsInside,
  within-IsInside,
}
use cross_xagent.Relay.Cert.{
  Cert, ChainError, chain, untrusted_root, expired, cross_org, Outcome, ok, err, ◌>>=◌, ◌>>◌,
  fail_if, role_member, role_org, role_issuing, verify_cert_sig, check_expiry, verify_chain,
  root_or, enroll_or, is_expired, within,
}

fail_if-ok :
    {A : Type 0} (b : Bool) (e : ChainError) (rest : Outcome A) {a : A}
    → (fail_if b e >> rest) ≡ ok a
    → (b ≡ false) × (rest ≡ ok a)
fail_if-ok true e rest h = cc
fail_if-ok false e rest h = (refl, h)

bind-ok :
    {A B : Type 0} (m : Outcome A) (f : A → Outcome B) {b : B}
    → (m >>= f) ≡ ok b
    → (a : A) × (m ≡ ok a) × (f a ≡ ok b)
bind-ok (ok a) f h = (a, refl, h)
bind-ok (err e) f h = cc

beq_bytes-of_eq : (a b : Bytes) → a ≡ b → beq_bytes a b ≡ true
beq_bytes-of_eq a b h = rw (h, beq_bytes_refl b)

not-not : (b : Bool) → not b ≡ false → b ≡ true
not-not b h = ground arith

pub check_expiry-ok :
    (now : ℤ) (a b c : Cert)
    → (check_expiry now (a ∷ b ∷ c ∷ []) ≡ ok tt) ↔ (
        (is_expired now a.exp ≡ false)
        × (is_expired now b.exp ≡ false)
        × (is_expired now c.exp ≡ false))
unfolding check_expiry
check_expiry-ok now a b c = (λ h. ground arith, λ h. ground arith)

module _ (ed : Ed25519) where
  -- Each certificate has its role and is signed by the next one's key, the last by a trusted root's,
  -- and the enrollment by the member's; every date is after the epoch and after now, and the first
  -- segments of the project are those of the organisation's namespace, none of them empty or dots.
  pub record IsAuthorized (token : Token) (member org issuing : Cert) (roots : Bytes → Option Bytes)
      (now : ℤ) : Type 0 where
    pub member_role : member.role ≡ role_member
    pub org_role : org.role ≡ role_org
    pub issuing_role : issuing.role ≡ role_issuing
    pub member_live : IsLive now member.exp
    pub org_live : IsLive now org.exp
    pub issuing_live : IsLive now issuing.exp
    pub member_signed : IsSignedBy ed member org.subject_pub
    pub org_signed : IsSignedBy ed org issuing.subject_pub
    pub root_pub : Bytes
    pub trusted : roots issuing.issuer_id ≡ some root_pub
    pub issuing_signed : IsSignedBy ed issuing root_pub
    pub namespace_named : member.org_namespace ≢ []
    pub namespace_same : member.org_namespace ≡ org.org_namespace
    pub member_key : length member.subject_pub ≡ 32
    pub enrolled : IsSignature ed member.subject_pub (canonical token.claims) token.sig
    pub claims_live : IsLive now token.claims.exp
    pub inside : IsInside token.claims.project member.org_namespace

  verify-claims :
      (token : Token) (key : Bytes) (claims : Claims)
      → verify ed token key ≡ verified claims
      → claims ≡ token.claims
  unfolding verify
  verify-claims token key claims h = ground arith

  root_or-ok : (o : Option Bytes) (key : Bytes) → root_or o ≡ ok key → o ≡ some key
  root_or-ok none key h = cc
  root_or-ok (some k) key h = cc

  enroll_or-ok : (v : Verified) (claims : Claims) → enroll_or v ≡ ok claims → v ≡ verified claims
  enroll_or-ok (verified c) claims h = cc
  enroll_or-ok (rejected e) claims h = cc

  -- A namespace that passes the third test is named, and is the organisation's.
  namespaces : (n m : Bytes) → (beq_bytes n [] || not (beq_bytes n m)) ≡ false → (n ≢ []) × (n ≡ m)
  namespaces [] m h = cc
  namespaces (x ∷ n) m h = (λ e. cc, beq_bytes→eq (x ∷ n) m (not-not (beq_bytes (x ∷ n) m) h))

  namespaces-pass : (n m : Bytes) → n ≢ [] → n ≡ m → (beq_bytes n [] || not (beq_bytes n m)) ≡ false
  namespaces-pass [] m ne e = absurd (ne refl)
  namespaces-pass (x ∷ n) m ne e = rw (← e, beq_bytes_refl (x ∷ n))

  or-false : (a b : Bool) → (not a || not b) ≡ false → (a ≡ true) × (b ≡ true)
  or-false a b h = ground arith

  same : (a b : Bytes) → not (beq_bytes a b) ≡ false → a ≡ b
  same a b h = beq_bytes→eq a b (not-not (beq_bytes a b) h)

  module _ (token : Token) (member org issuing : Cert) (roots : Bytes → Option Bytes)
      (now : ℤ) where
    abbrev three : List Cert
    three = member ∷ org ∷ issuing ∷ []

    -- Where `verify_chain` accepts a chain of three certificates, the result is the claims of the
    -- token, and the chain is authorized.
    pub verify_chain_sound :
        (claims : Claims)
        → verify_chain ed token three roots now ≡ ok claims
        → (claims ≡ token.claims) × IsAuthorized token member org issuing roots now
    unfolding verify_chain
    verify_chain_sound claims h0 =
        let bad_roles =
          not (beq_bytes member.role role_member)
          || (not (beq_bytes org.role role_org) || not (beq_bytes issuing.role role_issuing)) in
        let bad_signatures =
          not (verify_cert_sig ed member org.subject_pub)
          || not (verify_cert_sig ed org issuing.subject_pub) in
        let bad_namespace =
          beq_bytes member.org_namespace []
          || not (beq_bytes member.org_namespace org.org_namespace) in
        let (roles, h1) = fail_if-ok bad_roles chain _ h0 in
        let (_, live, h2) = bind-ok (check_expiry now three) _ h1 in
        let (signed, h3) = fail_if-ok bad_signatures chain _ h2 in
        let (key, found, h4) = bind-ok (root_or (roots issuing.issuer_id)) _ h3 in
        let (rooted, h5) = fail_if-ok (not (verify_cert_sig ed issuing key)) untrusted_root _ h4 in
        let (named, h6) = fail_if-ok bad_namespace chain _ h5 in
        let (sized, h7) = fail_if-ok (not (length member.subject_pub == 32)) chain _ h6 in
        let (claims', checked, h8) =
          bind-ok (enroll_or (verify ed token member.subject_pub)) _ h7 in
        let (fresh, h9) = fail_if-ok (is_expired now claims'.exp) expired _ h8 in
        let (inside, h10) =
          fail_if-ok (not (within claims'.project member.org_namespace)) cross_org _ h9 in
        let enrolled = enroll_or-ok _ _ checked in
        let e = verify-claims token member.subject_pub claims' enrolled in
        let e' : claims' ≡ claims = cc h10 in
        let dates = (check_expiry-ok now member org issuing).0 live in
        let (m, r) = namespaces _ _ named in
        let (s1, s2) = or-false _ _ signed in
        (
          sym e' ∙ e,
          record {
            member_role = same _ _ (ground arith);
            org_role = same _ _ (ground arith);
            issuing_role = same _ _ (ground arith);
            member_live = (is_expired-IsLive now member.exp).0 dates.0;
            org_live = (is_expired-IsLive now org.exp).0 dates.1;
            issuing_live = (is_expired-IsLive now issuing.exp).0 dates.2;
            member_signed = (verify_cert_sig_iff ed member org.subject_pub).0 s1;
            org_signed = (verify_cert_sig_iff ed org issuing.subject_pub).0 s2;
            root_pub = key;
            trusted = root_or-ok _ _ found;
            issuing_signed = (verify_cert_sig_iff ed issuing key).0 (not-not _ rooted);
            namespace_named = m;
            namespace_same = r;
            member_key = ==→eq _ _ (not-not _ sized);
            enrolled = (verify_iff ed token member.subject_pub).0 (rw e at enrolled);
            claims_live = (is_expired-IsLive now token.claims.exp).0 (rw e at fresh);
            inside =
                (within-IsInside token.claims.project member.org_namespace).0
                  (not-not _ (rw e at inside));
          },
        )

    -- An authorized chain is accepted.
    pub verify_chain_complete :
        IsAuthorized token member org issuing roots now
        → verify_chain ed token three roots now ≡ ok token.claims
    unfolding verify_chain
    verify_chain_complete a =
        let dates = is_expired-IsLive now in
        let live = (check_expiry-ok now member org issuing).1 (
          (dates member.exp).1 a.member_live,
          (dates org.exp).1 a.org_live,
          (dates issuing.exp).1 a.issuing_live,
        ) in
        let r1 = beq_bytes-of_eq member.role role_member a.member_role in
        let r2 = beq_bytes-of_eq org.role role_org a.org_role in
        let r3 = beq_bytes-of_eq issuing.role role_issuing a.issuing_role in
        let s1 = (verify_cert_sig_iff ed member org.subject_pub).1 a.member_signed in
        let s2 = (verify_cert_sig_iff ed org issuing.subject_pub).1 a.org_signed in
        let s3 = (verify_cert_sig_iff ed issuing a.root_pub).1 a.issuing_signed in
        let names = namespaces-pass _ _ a.namespace_named a.namespace_same in
        let sized : (length member.subject_pub == 32) ≡ true = ground (arith, a.member_key) in
        let enrolled = (verify_iff ed token member.subject_pub).1 a.enrolled in
        let fresh = (dates token.claims.exp).1 a.claims_live in
        let inside = (within-IsInside token.claims.project member.org_namespace).1 a.inside in
        rw (r1, r2, r3, live, s1, s2, a.trusted, s3, names, sized, enrolled, fresh, inside) refl
