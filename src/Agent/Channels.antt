-- ===== src/Agent/Channels.antt =====
-- The relay channel of the metrics exporter over the attempts of one export.
use cross_xagent.Base.{ℕ, ◌+◌, ◌≡◌, ◌≢◌, false, none, some, List, [], ◌∷◌, arith, Bytes}
use cross_xagent.Agent.Retry.{
  accepted, Collector, jitter, retry_delays, try_again, export_with_retry,
}
use cross_xagent.Agent.Transport.{
  Transport, direct, relay, Net, channel_of, discard_relay_channel, try_export, metrics_collector,
}

module _ {Request Channel Pipe World : Type 0} (net : Net Request Channel Pipe World) where
  -- No channel is kept.
  abbrev pub IsIdle : Transport Channel → Type 0
  IsIdle direct = Unit
  IsIdle (relay none) = Unit
  IsIdle (relay (some channel)) = ⊥

  discard_relay_channel-IsIdle : (t : Transport Channel) → IsIdle (discard_relay_channel net t)
  discard_relay_channel-IsIdle direct = tt
  discard_relay_channel-IsIdle (relay channel) = tt

  -- An attempt that was not accepted keeps no relay channel: the next one waits for a fresh pipe.
  pub try_export-IsIdle :
      (token : Bytes) (request : Request) (t : Transport Channel) (w : World)
      → (try_export net token request (t, w)).0 ≢ accepted
      → IsIdle (try_export net token request (t, w)).1.0
  unfolding try_export channel_of
  try_export-IsIdle token request direct w h = ground arith
  try_export-IsIdle token request (relay none) w h = ground arith
  try_export-IsIdle token request (relay (some channel)) w h = ground arith

  module _ (token : Bytes) (sleep : ℕ → World → World) (subsec_nanos : World → ℕ) where
    abbrev metrics : Collector Request (Transport Channel × World)
    metrics = metrics_collector net token sleep subsec_nanos

    try_again-IsIdle :
        (delays : List ℕ) (request : Request) (s : Transport Channel × World)
        → IsIdle s.0
        → (try_again metrics delays request s).0 ≡ false
        → IsIdle (try_again metrics delays request s).1.0
    unfolding try_again metrics_collector
    try_again-IsIdle [] request s idle h = idle
    try_again-IsIdle (delay ∷ delays) request (t, w) idle h = ground (
      arith,
      try_export-IsIdle token request t (sleep (delay + jitter (subsec_nanos w)) w),
      try_again-IsIdle delays request
          (try_export net token request (t, sleep (delay + jitter (subsec_nanos w)) w)).1,
    )

    -- An export whose attempts all failed leaves no relay channel behind, so that the next export
    -- starts with a fresh pipe.
    pub export_with_retry-IsIdle :
        (request : Request) (t : Transport Channel) (w : World)
        → (export_with_retry metrics request (t, w)).0 ≡ false
        → IsIdle (export_with_retry metrics request (t, w)).1.0
    unfolding export_with_retry metrics_collector
    export_with_retry-IsIdle request t w h = ground (
      arith,
      try_export-IsIdle token request t w,
      try_again-IsIdle retry_delays request (try_export net token request (t, w)).1,
    )
