-- ===== src/Agent/LogsRetry.antt =====
-- `export_with_retry`, `try_export` and `jitter` of crates/crossx-agent/src/logs.rs, which repeat those
-- of export.rs: `Retry` has the loop that both exporters are modelled with, and here the one of
-- logs.rs is shown to be that loop.
use cross_xagent.Base.{
  ℕ, zero, suc, ◌+◌, ◌%◌, ◌≡◌, refl, sym, ap, ◌⊎◌, inl, inr, ◌∙◌, Bool, true, false, Option, none,
  some, List, [], ◌∷◌, ◌++◌, Bytes, length,
}
use cross_xagent.Relay.Auth.{ascii}
use cross_xagent.Agent.Retry.{
  Attempt, accepted, failed, timed_out, Collector, try_again, export_with_retry, retry_delays,
  jitter,
}
use cross_xagent.Agent.Transport.{Reply, value, refused, expired}

abbrev pub logs_retry_delays : List ℕ
logs_retry_delays = 500 ∷ 2000 ∷ 8000 ∷ []

abbrev pub logs_jitter : ℕ → ℕ
logs_jitter nanos = nanos % 250

abbrev get_elem? : List ℕ → ℕ → Option ℕ
get_elem? [] n = none
get_elem? (x ∷ xs) zero = some x
get_elem? (x ∷ xs) (suc n) = get_elem? xs n

-- `connect` to the collector, the `export` of `LogsServiceClient` with the authorization that it
-- sends, and the parser of a metadata value.
pub record LogsNet (Request Channel World : Type 0) : Type 0 where
  pub connect : World → Reply Channel × World
  pub export : Channel → Option Bytes → Request → World → Reply (Unit {0}) × World
  pub parse_metadata : Bytes → Option Bytes

-- How the `match` on the timeout reads the end of an attempt.
abbrev pub attempt_of : Reply (Unit {0}) → Attempt
attempt_of (value _) = accepted
attempt_of refused = failed
attempt_of expired = timed_out

pub Attempt-cases : (a : Attempt) → (a ≡ accepted) ⊎ ((a ≡ failed) ⊎ (a ≡ timed_out))
Attempt-cases accepted = inl refl
Attempt-cases failed = inr (inl refl)
Attempt-cases timed_out = inr (inr refl)

module _ {Request Channel World : Type 0} (net : LogsNet Request Channel World)
    (token : Bytes) where
  -- The request over a channel; an empty token sends no authorization.
  unfoldable pub send_logs : Bytes → Channel → Request → World → Reply (Unit {0}) × World
  send_logs [] channel request w = net.export channel none request w
  send_logs (c ∷ cs) channel request w = elim (net.parse_metadata (ascii "Bearer " ++ (c ∷ cs))) [
    | none ↦ (refused, w)
    | some bearer ↦ net.export channel (some bearer) request w
  ]

  -- `try_export` under the timeout of its attempt, over a channel of its own.
  unfoldable pub try_export_logs : Request → World → Attempt × World
  unfolding send_logs
  try_export_logs request w =
      let (reply, w1) = net.connect w in
      elim reply [
        | refused ↦ (failed, w1)
        | expired ↦ (timed_out, w1)
        | value channel ↦
            let (sent, w2) = send_logs token channel request w1 in (attempt_of sent, w2)
      ]

  module _ (sleep : ℕ → World → World) (subsec_nanos : World → ℕ) where
    -- The sleep before an attempt, from the second on. An index past the delays would panic; the loop
    -- below never has one.
    unfoldable pub rest_before : ℕ → World → World
    rest_before zero w = w
    rest_before (suc before) w = elim (get_elem? logs_retry_delays before) [
      | none ↦ w
      | some delay ↦ sleep (delay + logs_jitter (subsec_nanos w)) w
    ]

    -- The loop from `attempt` on, with the number of attempts that are left.
    unfoldable pub logs_attempts : ℕ → ℕ → Request → World → Bool × World
    unfolding rest_before
    logs_attempts zero attempt request w = (false, w)
    logs_attempts (suc left) attempt request w =
        let (ended, w1) = try_export_logs request (rest_before attempt w) in
        elim ended [
          | accepted ↦ (true, w1)
          | failed ↦ logs_attempts left (attempt + 1) request w1
          | timed_out ↦ logs_attempts left (attempt + 1) request w1
        ]

    -- `0..=RETRY_DELAYS.len()`
    unfoldable pub export_logs_with_retry : Request → World → Bool × World
    unfolding logs_attempts
    export_logs_with_retry request w = logs_attempts (length logs_retry_delays + 1) 0 request w

    -- The collector of the logs exporter for the loop of `Retry`.
    unfoldable pub logs_collector : Collector Request World
    logs_collector = record {
      try_export = try_export_logs;
      sleep = sleep;
      subsec_nanos = subsec_nanos;
    }

    rest_before-delay :
        (before delay : ℕ) (w : World)
        → get_elem? logs_retry_delays before ≡ some delay
        → rest_before (suc before) w ≡ sleep (delay + logs_jitter (subsec_nanos w)) w
    unfolding rest_before
    rest_before-delay before delay w e = rw (rest_before, e) refl

    after_attempt : ℕ → ℕ → Request → Attempt × World → Bool × World
    after_attempt left attempt request (accepted, w) = (true, w)
    after_attempt left attempt request (failed, w) = logs_attempts left (attempt + 1) request w
    after_attempt left attempt request (timed_out, w) = logs_attempts left (attempt + 1) request w

    logs_attempts-after_attempt :
        (left attempt : ℕ) (request : Request) (w : World)
        → logs_attempts (suc left) attempt request w
          ≡ after_attempt left attempt request (try_export_logs request (rest_before attempt w))
    unfolding logs_attempts after_attempt
    logs_attempts-after_attempt left attempt request w =
        elim (Attempt-cases (try_export_logs request (rest_before attempt w)).0) [
          | inl a ↦ rw (logs_attempts, after_attempt, a) refl
          | inr (inl a) ↦ rw (logs_attempts, after_attempt, a) refl
          | inr (inr a) ↦ rw (logs_attempts, after_attempt, a) refl
        ]

    after_retry : List ℕ → Request → Attempt × World → Bool × World
    after_retry delays request (accepted, w) = (true, w)
    after_retry delays request (failed, w) = try_again logs_collector delays request w
    after_retry delays request (timed_out, w) = try_again logs_collector delays request w

    try_again-after_retry :
        (delay : ℕ) (delays : List ℕ) (request : Request) (w : World)
        → try_again logs_collector (delay ∷ delays) request w
          ≡ after_retry delays request
              (try_export_logs request (sleep (delay + jitter (subsec_nanos w)) w))
    unfolding try_again logs_collector after_retry
    try_again-after_retry delay delays request w =
        elim (Attempt-cases
          (try_export_logs request (sleep (delay + jitter (subsec_nanos w)) w)).0) [
            | inl a ↦ rw (try_again, after_retry, a) refl
            | inr (inl a) ↦ rw (try_again, after_retry, a) refl
            | inr (inr a) ↦ rw (try_again, after_retry, a) refl
          ]

    -- The rest of the loop is the rest of the other.
    Agree : ℕ → ℕ → List ℕ → Request → Type 0
    Agree left attempt delays request =
        (w : World)
        → logs_attempts left attempt request w ≡ try_again logs_collector delays request w

    after_attempt-after_retry :
        (left attempt : ℕ) (delays : List ℕ) (request : Request) (r : Attempt × World)
        → Agree left (attempt + 1) delays request
        → after_attempt left attempt request r ≡ after_retry delays request r
    unfolding after_attempt after_retry Agree
    after_attempt-after_retry left attempt delays request (accepted, w) rest = refl
    after_attempt-after_retry left attempt delays request (failed, w) rest = rest w
    after_attempt-after_retry left attempt delays request (timed_out, w) rest = rest w

    one_more :
        (request : Request) (left before delay : ℕ) (delays : List ℕ)
        → get_elem? logs_retry_delays before ≡ some delay
        → Agree left (suc before + 1) delays request
        → Agree (suc left) (suc before) (delay ∷ delays) request
    unfolding Agree
    one_more request left before delay delays at_before rest w =
        logs_attempts-after_attempt left (suc before) request w
        ∙ ap (λ v. after_attempt left (suc before) request (try_export_logs request v))
            (rest_before-delay before delay w at_before)
        ∙ after_attempt-after_retry left (suc before) delays request _ rest
        ∙ sym (try_again-after_retry delay delays request w)

    retries :
        (request : Request) (w : World)
        → logs_attempts 3 1 request w ≡ try_again logs_collector retry_delays request w
    unfolding logs_attempts try_again Agree
    retries request =
        one_more request 2 0 500 (2000 ∷ 8000 ∷ []) refl (
          one_more request 1 1 2000 (8000 ∷ []) refl
            (one_more request 0 2 8000 [] refl (λ w. refl)))

    -- The loop of logs.rs is the shared one, with the same delays, jitter and number of attempts.
    pub export_logs_with_retry_lem :
        (request : Request) (w : World)
        → export_logs_with_retry request w ≡ export_with_retry logs_collector request w
    unfolding export_logs_with_retry logs_attempts rest_before export_with_retry logs_collector
    export_logs_with_retry_lem request w = elim (Attempt-cases (try_export_logs request w).0) [
      | inl a ↦ rw (logs_attempts, export_with_retry, a) refl
      | inr (inl a) ↦
          rw (logs_attempts, export_with_retry, a) (retries request (try_export_logs request w).1)
      | inr (inr a) ↦
          rw (logs_attempts, export_with_retry, a) (retries request (try_export_logs request w).1)
    ]
