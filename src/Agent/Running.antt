-- ===== src/Agent/Running.antt =====
-- `run_loop` of crates/crossx-agent/src/main.rs over `MetricsExporter::open` of export.rs, and the
-- process that is stopped and started again. The requests that the sampler gives, the clock and the
-- collector are parameters.
use cross_xagent.Base.{ℕ, Bool, Option, none, some, List, [], ◌∷◌, Bytes, if◌then◌else◌}
use cross_xagent.Wal.Disk.{Result, ok, err, Disk}
use cross_xagent.Wal.Ops.{Wal, Step, open_wal}
use cross_xagent.Wal.Durable.{interrupted}
use cross_xagent.Agent.Retry.{Collector}
use cross_xagent.Agent.Exporter.{Codec, Outcome, export_tick}
use cross_xagent.Agent.Transport.{Transport, direct, relay}

-- The transport of a new exporter: `open`, and `open_with_relay` where the relay is enabled.
unfoldable pub new_transport : {Channel : Type 0} → Bool → Transport Channel
new_transport enabled = if enabled then relay none else direct

abbrev opened_wal : Result (Step (Unit {0})) → Option Wal
opened_wal (ok (ok _, wal)) = some wal
opened_wal (ok (err e, wal)) = none
opened_wal (err e) = none

-- `MetricsExporter::open`: the log of the directory, where it can be opened.
unfoldable pub open_exporter : Disk → ℕ → Option Wal
open_exporter d max_bytes = opened_wal (open_wal d max_bytes)

-- One start of the process: the requests of its ticks, and the record that it was writing when it
-- was stopped, with the number of bytes that were written.
pub record Life (Request : Type 0) : Type 0 where
  pub requests : List Request
  pub written : ℕ
  pub payload : Bytes

module _ {Request World : Type 0} (codec : Codec Request) (collector : Collector Request World)
    (boot : World → World) where
  -- The loop of `run_loop`: an error of a tick is only logged.
  unfoldable pub run_ticks : List Request → Wal → World → Wal × World
  run_ticks [] wal w = (wal, w)
  run_ticks (request ∷ requests) wal w =
      let (o, wal1, w1) = export_tick codec collector request wal w in run_ticks requests wal1 w1

  -- `export_tick` of a single run, through an exporter that is opened for it.
  unfoldable pub export_tick_once : ℕ → Request → Disk → World → Option (Outcome × Wal × World)
  export_tick_once max_bytes request d w = elim (open_exporter d max_bytes) [
    | none ↦ none
    | some wal ↦ some (export_tick codec collector request wal (boot w))
  ]

  -- `run_loop`, over the directory; `boot` is what a start makes of the world, a new transport
  -- included.
  unfoldable pub run_loop : ℕ → List Request → Disk → World → Option (Wal × World)
  run_loop max_bytes requests d w = elim (open_exporter d max_bytes) [
    | none ↦ none
    | some wal ↦ some (run_ticks requests wal (boot w))
  ]

  -- Start after start, with what each leaves on disk.
  unfoldable pub run_lives : ℕ → List (Life Request) → Disk → World → Option (Disk × World)
  unfolding run_loop
  run_lives max_bytes [] d w = some (d, w)
  run_lives max_bytes (life ∷ lives) d w = elim (run_loop max_bytes life.requests d w) [
    | none ↦ none
    | some (wal, w1) ↦ run_lives max_bytes lives (interrupted life.written life.payload wal) w1
  ]
