-- ===== src/Agent/Transport.antt =====
-- The transport of `MetricsExporter` in crates/crossx-agent/src/export.rs: a direct channel for every
-- attempt, or one channel over a relay pipe that is kept until an attempt fails. tonic, the sockets
-- and the pipes that the relay hands over are a parameter.
use cross_xagent.Base.{ℕ, Option, none, some, List, [], ◌++◌, Bytes}
use cross_xagent.Relay.Auth.{ascii}
use cross_xagent.Agent.Retry.{Attempt, accepted, failed, timed_out, Collector}

-- How an awaited step ends under the timeout of its attempt.
pub data Reply (A : Type 0) : Type 0 where
  value : A → Reply A
  refused expired : Reply A

pub data Transport (Channel : Type 0) : Type 0 where
  direct : Transport Channel
  relay : Option Channel → Transport Channel

-- `connect` to the collector, `incoming.recv`, `connect_with_connector` over a pipe, the `export` of
-- the client with the authorization that it sends, and the parser of a metadata value.
pub record Net (Request Channel Pipe World : Type 0) : Type 0 where
  pub connect : World → Reply Channel × World
  pub recv : World → Reply Pipe × World
  pub over_pipe : Pipe → World → Reply Channel × World
  pub export : Channel → Option Bytes → Request → World → Reply (Unit {0}) × World
  pub parse_metadata : Bytes → Option Bytes

module _ {Request Channel Pipe World : Type 0} (net : Net Request Channel Pipe World) where
  -- The channel of an attempt, with the transport that it leaves.
  unfoldable pub channel_of : Transport Channel → World → Reply Channel × Transport Channel × World
  channel_of direct w = let (reply, w') = net.connect w in (reply, direct, w')
  channel_of (relay (some channel)) w = (value channel, relay (some channel), w)
  channel_of (relay none) w =
      let (received, w1) = net.recv w in
      elim received [
        | refused ↦ (refused, relay none, w1)
        | expired ↦ (expired, relay none, w1)
        | value pipe ↦
            let (made, w2) = net.over_pipe pipe w1 in
            elim made [
              | refused ↦ (refused, relay none, w2)
              | expired ↦ (expired, relay none, w2)
              | value channel ↦ (value channel, relay (some channel), w2)
            ]
      ]

  -- An empty token sends no authorization.
  unfoldable pub send_request : Bytes → Channel → Request → World → Reply (Unit {0}) × World
  send_request [] channel request w = net.export channel none request w
  send_request (List.◌∷◌ c token) channel request w =
      elim (net.parse_metadata (ascii "Bearer " ++ (List.◌∷◌ c token))) [
        | none ↦ (refused, w)
        | some bearer ↦ net.export channel (some bearer) request w
      ]

  abbrev pub discard_relay_channel : Transport Channel → Transport Channel
  discard_relay_channel direct = direct
  discard_relay_channel (relay channel) = relay none

  -- `try_export` under the timeout: a failed request and a timeout both discard the relay's channel.
  unfoldable pub try_export :
      Bytes → Request → Transport Channel × World → Attempt × (Transport Channel × World)
  try_export token request (transport, w) =
      let (reply, transport', w1) = channel_of transport w in
      elim reply [
        | refused ↦ (failed, (transport', w1))
        | expired ↦ (timed_out, (discard_relay_channel transport', w1))
        | value channel ↦
            let (sent, w2) = send_request token channel request w1 in
            elim sent [
              | value _ ↦ (accepted, (transport', w2))
              | refused ↦ (failed, (discard_relay_channel transport', w2))
              | expired ↦ (timed_out, (discard_relay_channel transport', w2))
            ]
      ]

  -- The collector as `export_with_retry` of the metrics exporter sees it: the world, and its own
  -- transport beside it.
  unfoldable pub metrics_collector :
      Bytes → (ℕ → World → World) → (World → ℕ) → Collector Request (Transport Channel × World)
  metrics_collector token sleep subsec_nanos = record {
    try_export = try_export token;
    sleep = λ delay s. (s.0, sleep delay s.1);
    subsec_nanos = λ s. subsec_nanos s.1;
  }
