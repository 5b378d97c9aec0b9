-- ===== src/Agent/Restart.antt =====
-- Restarts: the backoff of the relay loop, the cursor of a journalctl that died, and the checkpoint
-- of a file source.
use cross_xagent.Base.{
  ℕ, ◌+◌, ◌/◌, ◌≤◌, ◌≡◌, refl, Bool, true, false, not, ◌&&◌, ◌⊎◌, inl, inr, Option, none, some,
  List, [], ◌∷◌, arith, Bytes, Bool-cases,
}
use cross_xagent.Telemetry.Tailer.{Tailer, persist_checkpoint}
use cross_xagent.Agent.Proxy.{
  initial_backoff, max_backoff, reconnect_jitter, sleep_before_reconnect, Event, run_event,
  connect_failed, register_failed, proxy_failed, registered,
}
use cross_xagent.Agent.Journald.{
  Follower, JournaldSource, is_some, spawn, ensure_running, on_follower_exit,
  journald_should_skip_cursor_on_restart,
}
use cross_xagent.Agent.Sources.{FileSource, deliver}

-- The backoff lies between its first value and its bound.
abbrev pub IsBackoff : ℕ → Type 0
IsBackoff backoff = (initial_backoff ≤ backoff) × (backoff ≤ max_backoff)

-- The events of the relay loop one after another.
abbrev pub run_events : List Event → ℕ → ℕ
run_events [] backoff = backoff
run_events (event ∷ events) backoff = run_events events (run_event event backoff)

run_event-IsBackoff :
    (event : Event) (backoff : ℕ) → IsBackoff backoff → IsBackoff (run_event event backoff)
unfolding run_event sleep_before_reconnect
run_event-IsBackoff (connect_failed nanos) backoff h = ground arith
run_event-IsBackoff (register_failed nanos) backoff h = ground arith
run_event-IsBackoff (proxy_failed nanos) backoff h = ground arith
run_event-IsBackoff registered backoff h = omega arith

-- Whatever happens to the connection, the backoff stays between one second and sixty.
pub run_events-IsBackoff :
    (events : List Event) (backoff : ℕ) → IsBackoff backoff → IsBackoff (run_events events backoff)
run_events-IsBackoff [] backoff h = h
run_events-IsBackoff (event ∷ events) backoff h =
    run_events-IsBackoff events (run_event event backoff) (run_event-IsBackoff event backoff h)

-- From a backoff within its bounds, the delay is at least the backoff, at most sixty seconds, and
-- at most a quarter longer than the backoff.
sleep_before_reconnect_lem :
    (nanos backoff : ℕ)
    → IsBackoff backoff
    → (backoff ≤ (sleep_before_reconnect nanos backoff).0)
      × ((sleep_before_reconnect nanos backoff).0 ≤ max_backoff)
      × ((sleep_before_reconnect nanos backoff).0 ≤ backoff + backoff / 4)
unfolding sleep_before_reconnect reconnect_jitter
sleep_before_reconnect_lem nanos backoff h = ground arith

-- After a follower of an enabled source has ended, the next tick spawns one that goes on from the
-- stored cursor, unless the old one had been spawned with it and produced no record; where journalctl
-- cannot be spawned, no follower runs.
ensure_running-on_follower_exit :
    (source : JournaldSource) (old : Follower) (stored : Option Bytes)
    → source.enabled ≡ true
    → source.follower ≡ some old
    → ((ensure_running true stored (on_follower_exit source)).follower
        ≡ some (record {
          pending_cursor = none;
          spawned_with_cursor =
              not (old.spawned_with_cursor && not old.produced_any_record) && is_some stored;
          produced_any_record = false;
        }))
      × ((ensure_running false stored (on_follower_exit source)).follower ≡ none)
unfolding ensure_running on_follower_exit spawn journald_should_skip_cursor_on_restart
ensure_running-on_follower_exit source old stored on running = rw (running, on) (refl, refl)

module _ {S : Type 0} (export_records : List Bytes → S → Bool × S) where
  -- The checkpoint file changes only where the exporter accepted the batch, and then to the place
  -- that the poll reached.
  deliver_lem :
      (writable : Bool) (bodies : List Bytes) (tailer : Tailer) (source : FileSource)
      (checkpoint : Option Bytes) (s : S)
      → let r = deliver export_records writable bodies tailer source checkpoint s in
        (r.1 ≡ checkpoint)
        ⊎ (((export_records bodies s).0 ≡ true) × (r.1 ≡ some (persist_checkpoint tailer).0))
  unfolding deliver
  deliver_lem writable [] tailer source checkpoint s = inl refl
  deliver_lem writable (body ∷ bodies) tailer source checkpoint s =
      elim (Bool-cases (export_records (body ∷ bodies) s).0) [
        | inl e ↦ elim (Bool-cases writable) [
          | inl d ↦ rw (e, d) (inr (refl, refl))
          | inr d ↦ rw (e, d) (inl refl)
        ]
        | inr e ↦ rw e (inl refl)
      ]
