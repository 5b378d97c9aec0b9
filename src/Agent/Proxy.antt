-- ===== src/Agent/Proxy.antt =====
-- crates/crossx-agent/src/relay.rs: where a proxied stream goes, and the delays between connections.
-- Durations are milliseconds.
use cross_xagent.Base.{
  ℕ, ◌+◌, ◌*◌, ◌/◌, ◌%◌, Bool, Option, none, some, List, [], ◌∷◌, Bytes, ltb, ◌==◌, if◌then◌else◌,
  beq_bytes,
}

pub data ProxyRoute : Type 0 where
  telemetry : ProxyRoute
  local_dial : ℕ → ProxyRoute

-- The port of the header against the port that is reserved for telemetry.
unfoldable pub route_proxy : ℕ → ℕ → ProxyRoute
route_proxy port telemetry_port = if port == telemetry_port then telemetry else local_dial port

-- The id that is registered.
unfoldable pub registered_id : Bytes → Bytes → Bytes
registered_id target_id node_id = if beq_bytes target_id [] then node_id else target_id

abbrev pub initial_backoff : ℕ
initial_backoff = 1000

abbrev pub max_backoff : ℕ
max_backoff = 60000

-- `Duration::min`
abbrev pub at_most : ℕ → ℕ → ℕ
at_most bound n = if ltb bound n then bound else n

unfoldable pub reconnect_jitter : ℕ → ℕ → ℕ
reconnect_jitter nanos backoff =
    let ceiling_ms = backoff / 4 in if ceiling_ms == 0 then 0 else nanos % ceiling_ms

-- The delay that is slept, and the next backoff.
unfoldable pub sleep_before_reconnect : ℕ → ℕ → ℕ × ℕ
sleep_before_reconnect nanos backoff = (
  at_most max_backoff (backoff + reconnect_jitter nanos backoff),
  at_most max_backoff (backoff * 2),
)

-- How the loop of `run` goes on.
pub data Event : Type 0 where
  connect_failed register_failed proxy_failed : ℕ → Event
  registered : Event

-- The backoff after an event; the number is the clock's nanoseconds.
unfoldable pub run_event : Event → ℕ → ℕ
run_event (connect_failed nanos) backoff = (sleep_before_reconnect nanos backoff).1
run_event (register_failed nanos) backoff = (sleep_before_reconnect nanos backoff).1
run_event (proxy_failed nanos) backoff = (sleep_before_reconnect nanos backoff).1
run_event registered backoff = initial_backoff

-- `route_stream` ends `run` where the exporter no longer takes pipes.
pub data Routed : Type 0 where
  slot_closed : Routed
  routed : ProxyRoute → Routed

abbrev handed_over : Bool → ProxyRoute → Routed
handed_over slot_open telemetry = if slot_open then routed telemetry else slot_closed
handed_over slot_open (local_dial port) = routed (local_dial port)

unfoldable pub route_stream : Bool → ℕ → ℕ → Routed
unfolding route_proxy
route_stream slot_open port telemetry_port = handed_over slot_open (route_proxy port telemetry_port)

-- How the inner loop of `run` ends: it waits for more, reconnects after a failed `next_proxy`, or ends
-- `run` with an error.
pub data ServeEnd : Type 0 where
  waiting reconnecting ended : ServeEnd

-- The inner loop over what `next_proxy` gives: the port of a stream, if any, and whether the
-- exporter still takes pipes.
unfoldable pub serve : ℕ → List (Option ℕ × Bool) → List ProxyRoute × ServeEnd
unfolding route_stream
serve telemetry_port [] = ([], waiting)
serve telemetry_port ((none, slot_open) ∷ proxies) = ([], reconnecting)
serve telemetry_port ((some port, slot_open) ∷ proxies) =
    let (routes, how) = serve telemetry_port proxies in
    elim (route_stream slot_open port telemetry_port) [
      | slot_closed ↦ ([], ended)
      | routed route ↦ (route ∷ routes, how)
    ]
