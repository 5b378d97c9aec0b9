-- ===== src/Agent/Direct.antt =====
-- The two exporters of crates/crossx-agent where no relay is used: `export_with_retry` of logs.rs
-- beside the one of export.rs with a direct transport.
use cross_xagent.Base.{
  ℕ, ◌+◌, arith, ◌≡◌, refl, inl, inr, sym, ap, ◌∙◌, Bool, true, Option, List, [], ◌∷◌, Bytes,
}
use cross_xagent.Agent.Retry.{
  Attempt, accepted, failed, timed_out, jitter, retry_delays, try_again, export_with_retry,
}
use cross_xagent.Agent.Transport.{
  Reply, value, refused, expired, Transport, direct, Net, channel_of, send_request, try_export,
  metrics_collector,
}
use cross_xagent.Agent.LogsRetry.{
  LogsNet, Attempt-cases, send_logs, try_export_logs, export_logs_with_retry, logs_collector,
  export_logs_with_retry_lem,
}

-- The same collector behind the two clients: they connect, send and read a token alike.
pub record SameCollector {Request Channel Pipe World : Type 0}
    (net : Net Request Channel Pipe World) (logs : LogsNet Request Channel World) : Type 0 where
  pub connect : (w : World) → net.connect w ≡ logs.connect w
  pub export :
      (channel : Channel) (bearer : Option Bytes) (request : Request) (w : World)
      → net.export channel bearer request w ≡ logs.export channel bearer request w
  pub parse_metadata : (text : Bytes) → net.parse_metadata text ≡ logs.parse_metadata text

module _ {Request Channel Pipe World : Type 0} (net : Net Request Channel Pipe World)
    (logs : LogsNet Request Channel World) (same : SameCollector net logs) (token : Bytes) where
  abbrev beside_direct : {A : Type 0} → A × World → A × (Transport Channel × World)
  beside_direct r = (r.0, (direct, r.1))

  -- The net of the metrics exporter with what the logs exporter calls.
  abbrev shared : Net Request Channel Pipe World
  shared = record net {
    connect = logs.connect;
    export = logs.export;
    parse_metadata = logs.parse_metadata;
  }

  same_net : net ≡ shared
  same_net = λ i. record net {
    connect = λ w. same.connect w i;
    export = λ channel bearer request w. same.export channel bearer request w i;
    parse_metadata = λ text. same.parse_metadata text i;
  }

  send_request-send_logs :
      (text : Bytes) (channel : Channel) (request : Request) (w : World)
      → send_request shared text channel request w ≡ send_logs logs token text channel request w
  unfolding send_request send_logs
  send_request-send_logs [] channel request w = refl
  send_request-send_logs (c ∷ cs) channel request w = refl

  try_export-try_export_logs :
      (request : Request) (w : World)
      → try_export net token request (direct, w)
        ≡ beside_direct (try_export_logs logs token request w)
  unfolding try_export try_export_logs channel_of
  try_export-try_export_logs request w =
      ap (λ n. try_export n token request (direct, w)) same_net ∙ at (logs.connect w) refl
    where
      at :
          (made : Reply Channel × World)
          → logs.connect w ≡ made
          → try_export shared token request (direct, w)
            ≡ beside_direct (try_export_logs logs token request w)
      at (refused, w1) e = ground (arith, e)
      at (expired, w1) e = ground (arith, e)
      at (value channel, w1) e = ground (arith, e, send_request-send_logs token channel request w1)

  module _ (sleep : ℕ → World → World) (subsec_nanos : World → ℕ) where
    try_again-direct :
        (delays : List ℕ) (request : Request) (w : World)
        → try_again (metrics_collector net token sleep subsec_nanos) delays request (direct, w)
          ≡ beside_direct
              (try_again (logs_collector logs token sleep subsec_nanos) delays request w)
    unfolding try_again metrics_collector logs_collector
    try_again-direct [] request w = refl
    try_again-direct (delay ∷ delays) request w =
        let rested = sleep (delay + jitter (subsec_nanos w)) w in
        ground (
          arith,
          try_export-try_export_logs request rested,
          try_again-direct delays request (try_export_logs logs token request rested).1,
        )

    after_metrics :
        Request → Attempt × (Transport Channel × World) → Bool × (Transport Channel × World)
    after_metrics request (accepted, s) = (true, s)
    after_metrics request (failed, s) =
        try_again (metrics_collector net token sleep subsec_nanos) retry_delays request s
    after_metrics request (timed_out, s) =
        try_again (metrics_collector net token sleep subsec_nanos) retry_delays request s

    after_logs : Request → Attempt × World → Bool × World
    after_logs request (accepted, s) = (true, s)
    after_logs request (failed, s) =
        try_again (logs_collector logs token sleep subsec_nanos) retry_delays request s
    after_logs request (timed_out, s) =
        try_again (logs_collector logs token sleep subsec_nanos) retry_delays request s

    after-direct :
        (request : Request) (r : Attempt × World)
        → after_metrics request (beside_direct r) ≡ beside_direct (after_logs request r)
    unfolding after_metrics after_logs
    after-direct request (accepted, w) = refl
    after-direct request (failed, w) = try_again-direct retry_delays request w
    after-direct request (timed_out, w) = try_again-direct retry_delays request w

    export_with_retry-after_metrics :
        (request : Request) (s : Transport Channel × World)
        → export_with_retry (metrics_collector net token sleep subsec_nanos) request s
          ≡ after_metrics request (try_export net token request s)
    unfolding export_with_retry metrics_collector after_metrics
    export_with_retry-after_metrics request s =
        elim (Attempt-cases (try_export net token request s).0) [
          | inl a ↦ rw (export_with_retry, after_metrics, a) refl
          | inr (inl a) ↦ rw (export_with_retry, after_metrics, a) refl
          | inr (inr a) ↦ rw (export_with_retry, after_metrics, a) refl
        ]

    export_with_retry-after_logs :
        (request : Request) (w : World)
        → export_with_retry (logs_collector logs token sleep subsec_nanos) request w
          ≡ after_logs request (try_export_logs logs token request w)
    unfolding export_with_retry logs_collector after_logs
    export_with_retry-after_logs request w =
        elim (Attempt-cases (try_export_logs logs token request w).0) [
          | inl a ↦ rw (export_with_retry, after_logs, a) refl
          | inr (inl a) ↦ rw (export_with_retry, after_logs, a) refl
          | inr (inr a) ↦ rw (export_with_retry, after_logs, a) refl
        ]

    -- Where the two clients reach the same collector, and no relay is used, the two functions of the name
    -- do the same: `export_with_retry` of export.rs with a direct transport ends as the one of logs.rs
    -- does, in the same world, and its transport stays direct.
    pub export_with_retry-export_logs_with_retry :
        (request : Request) (w : World)
        → let r = export_logs_with_retry logs token sleep subsec_nanos request w in
          export_with_retry (metrics_collector net token sleep subsec_nanos) request (direct, w)
          ≡ (r.0, (direct, r.1))
    export_with_retry-export_logs_with_retry request w =
        export_with_retry-after_metrics request (direct, w)
        ∙ ap (after_metrics request) (try_export-try_export_logs request w)
        ∙ after-direct request (try_export_logs logs token request w)
        ∙ ap (λ r. beside_direct r)
            (sym (
              export_logs_with_retry_lem logs token sleep subsec_nanos request w
              ∙ export_with_retry-after_logs request w))
