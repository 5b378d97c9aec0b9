-- ===== src/Relay/Session.antt =====
-- What a session that was set up went through.
use cross_xagent.Base.{
  ℕ, ◌≡◌, refl, ap, ◌∙◌, ◌⊎◌, true, Option, none, some, inl, inr, [], ◌∷◌, Bytes, length, ◌==◌,
  Bool-cases, ==→eq,
}
use cross_xagent.Relay.Auth.{transcript, enrollment_transcript}
use cross_xagent.Relay.Enroll.{Token, canonical}
use cross_xagent.Relay.Errors.{Result, failed, ok}
use cross_xagent.Relay.Protocol.{Challenge, AuthResp}
use cross_xagent.Relay.Peer.{
  RelayConfig, Control, ◌>>=◌, response_error, has_session, proof_transcript, answer,
}

-- The parts of a chain that succeeds.
bind-ok :
    {S A B : Type 0} (step : Result A × S) (next : A × S → Result B × S) {b : B}
    → (step >>= next).0 ≡ ok b
    → (a : A) × (step ≡ (ok a, step.1)) × ((next (a, step.1)).0 ≡ ok b)
bind-ok (failed e, s) next h = cc
bind-ok (ok a, s) next h = (a, refl, h)

-- What the proof has to be a signature of: the identity, or the enrollment where there is one.
abbrev pub IsTranscript : RelayConfig → Bytes → Bytes → Bytes → Type 0
IsTranscript cfg binding nonce message =
    ((cfg.enrollment ≡ none) × (message ≡ transcript binding cfg.principal nonce))
    ⊎ ((token : Token) × (cfg.enrollment ≡ some token)
        × (message ≡ enrollment_transcript binding (canonical token.claims) nonce))

proof_transcript-IsTranscript :
    (cfg : RelayConfig) (binding nonce : Bytes)
    → IsTranscript cfg binding nonce (proof_transcript cfg binding nonce)
unfolding proof_transcript
proof_transcript-IsTranscript cfg binding nonce = at cfg.enrollment refl
  where
    at :
        (e : Option Token)
        → cfg.enrollment ≡ e
        → IsTranscript cfg binding nonce (proof_transcript cfg binding nonce)
    at none h = rw (proof_transcript, h) (inl (refl, refl))
    at (some token) h = rw (proof_transcript, h) (inr (token, refl, refl))

-- The answer names the first version of the protocol and a session, and no error.
pub record IsAccepting (response : AuthResp) : Type 0 where
  pub no_error : (response.err ≡ none) ⊎ (response.err ≡ some [])
  pub version : response.version ≡ some 1
  pub session_id : Bytes
  pub session : response.session_id ≡ some session_id

response_error-ok : (e : Option Bytes) → response_error e ≡ ok tt → (e ≡ none) ⊎ (e ≡ some [])
unfolding response_error
response_error-ok none h = inl refl
response_error-ok (some []) h = inr refl
response_error-ok (some (c ∷ code)) h = cc

has_session-IsAccepting :
    (response : AuthResp)
    → response_error response.err ≡ ok tt
    → has_session response ≡ true
    → IsAccepting response
unfolding has_session
has_session-IsAccepting response h d = at response.version response.session_id refl refl
  where
    at :
        (v : Option ℕ) (id : Option Bytes)
        → response.version ≡ v
        → response.session_id ≡ id
        → IsAccepting response
    at none id ev ei = absurd (cc (rw (has_session, ev) at d))
    at (some v) none ev ei = absurd (cc (rw (has_session, ev, ei) at d))
    at (some v) (some id) ev ei =
        let same = rw (has_session, ev, ei) at d in
        record {
          no_error = response_error-ok response.err h;
          version = ev ∙ ap some (==→eq v 1 same);
          session_id = id;
          session = ei;
        }

module _ {S : Type 0} (control : Control S) (sign : Bytes → Bytes → Bytes) where
  -- The proof was sent, and the relay answered it.
  pub record Authenticated (cfg : RelayConfig) (binding : Bytes) (challenge : Challenge) (s : S)
      : Type 0 where
    pub nonce : length challenge.nonce ≡ 32
    pub message : Bytes
    pub signed : IsTranscript cfg binding challenge.nonce message
    pub after_proof : S
    pub proof :
        control.send_auth_proof (record { signature = sign cfg.key_seed message }) s
        ≡ (ok tt, after_proof)
    pub response : AuthResp
    pub answered : (control.read_auth_resp after_proof).0 ≡ ok response
    pub accepted : IsAccepting response

  -- Where the exchange after the challenge succeeds, the nonce had 32 bytes; the agent sent its
  -- signature of the transcript of the binding, its principal and the nonce, or, where it is
  -- enrolled, of the transcript of the binding, the canonical bytes of its claims and the nonce; and
  -- the relay's answer has no error or an empty one, version 1 of the protocol and a session.
  pub answer-Authenticated :
      (cfg : RelayConfig) (binding : Bytes) (challenge : Challenge) (s : S)
      → (answer control sign cfg binding challenge s).0 ≡ ok tt
      → Authenticated cfg binding challenge s
  unfolding answer
  answer-Authenticated cfg binding challenge s h0 =
      elim (Bool-cases (length challenge.nonce == 32)) [
        | inr e ↦ absurd (cc (rw (answer, e) at h0))
        | inl e ↦
            let h1 = rw (answer, e) at h0 in
            let signature = sign cfg.key_seed (proof_transcript cfg binding challenge.nonce) in
            let (u, proof, h2) =
              bind-ok (control.send_auth_proof (record { signature = signature }) s) _ h1 in
            let s1 = (control.send_auth_proof (record { signature = signature }) s).1 in
            let (response, answered, h3) = bind-ok (control.read_auth_resp s1) _ h2 in
            let s2 = (control.read_auth_resp s1).1 in
            let (v, accepted, h4) = bind-ok (response_error response.err, s2) _ h3 in
            record {
              nonce = ==→eq _ _ e;
              message = proof_transcript cfg binding challenge.nonce;
              signed = proof_transcript-IsTranscript cfg binding challenge.nonce;
              after_proof = s1;
              proof = proof;
              response = response;
              answered = ap (λ r. r.0) answered;
              accepted = elim (Bool-cases (has_session response)) [
                | inl d ↦ has_session-IsAccepting response (ap (λ r. r.0) accepted) d
                | inr d ↦ absurd (cc (rw d at h4))
              ];
            }
      ]
