-- ===== src/Agent/RunTests.antt =====
-- Runs of the process and of the logs loop, and the theorems at concrete inputs.
use cross_xagent.Base.{
  ap, length, length-append, ◌++◌, beq_bytes, sym, ℕ, suc, ◌≡◌, refl, none, some, true, false,
  Option, if◌then◌else◌, List, [], ◌∷◌, arith, Bytes,
}
use cross_xagent.Wal.Disk.{find_file, contents}
use cross_xagent.Wal.Queue.{IsValid}
use cross_xagent.Agent.Transport.{Transport, relay}
use cross_xagent.Agent.Journald.{next_record, next_line}
use cross_xagent.Agent.Sources.{new_file_source, poll_file_sources, poll_into, opened, deliver}
use cross_xagent.Agent.Loop.{LoopEvent, tick, lines, LogSources, journal_record, loop_event}
use cross_xagent.Wal.Reopening.{
  new_disk, new_wal, new_wal-IsDurable, append-IsDurable, open_wal-new,
}
use cross_xagent.Relay.Auth.{ascii}
use cross_xagent.Agent.Config.{Parser, default_agent, apply_env}
use cross_xagent.Agent.Overlay.{Overlaid, apply_env-Overlaid}
use mathlib.Core.Path.{subst}
use cross_xagent.Telemetry.Lines.{concat}
use cross_xagent.Agent.Rounds.{over_exporter, run_rounds}
use cross_xagent.Agent.Logging.{accept_all, export_records}
use cross_xagent.Agent.Logged.{Submittable, Logged, run_rounds-Logged}
use cross_xagent.Telemetry.Tailer.{
  open_tailer, read_checkpoint, start_of, poll, poll_lines, split_inclusive, start_offset,
  is_complete, strip_cr, body_of,
}
use cross_xagent.Agent.Tasks.{
  relay_ended, logs_ended, run_forever, without_logs, apart_from_logs, run_forever-logs,
}
use cross_xagent.Agent.Running.{Life, new_transport, open_exporter}
use cross_xagent.Agent.Fates.{record_bytes}
use cross_xagent.Agent.Lives.{Fitting, Stops, submitted, Survived, run_lives-Survived}
use cross_xagent.Agent.Lossless.{Delivered, run_lives-lossless}
use cross_xagent.Wal.Ops.{Wal, append}
use cross_xagent.Wal.Delivery.{HasRoom, Appended, append-HasRoom}
use cross_xagent.Agent.Emptying.{Decodable}
use cross_xagent.Agent.Conserving.{Conserved}
use cross_xagent.Agent.Catching.{run_ticks-empties}
use cross_xagent.Agent.Running.{run_ticks}
use cross_xagent.Agent.Tests.{
  always_accepts, codec, counting, refusing_collector, parse_line, following,
}

-- Two starts, of two ticks and of one, each stopped after some bytes of another record.
abbrev two_lives : List (Life Bytes)
two_lives =
    record { requests = (7 ∷ []) ∷ (8 ∷ 9 ∷ []) ∷ []; written = 3; payload = 1 ∷ [] }
    ∷ record { requests = (5 ∷ []) ∷ []; written = 0; payload = [] }
    ∷ []

-- A new exporter over a relay, in a world that stays.
abbrev boot_relayed : Transport ℕ × ℕ → Transport ℕ × ℕ
boot_relayed s = (new_transport true, s.1)

open_exporter-new : open_exporter new_disk 8388608 ≡ some (new_wal 8388608)
unfolding open_exporter
open_exporter-new = rw (open_wal-new 8388608) refl

new_wal-IsValid : IsValid (new_wal 8388608) []
unfolding contents find_file
new_wal-IsValid = record { files = refl; order = tt; reads = tt; room = omega arith }

abbrev two_lives-Fitting : Fitting 8388608 (submitted codec two_lives)
two_lives-Fitting =
    (omega arith, omega arith, (omega arith, omega arith, (omega arith, omega arith, tt)))

abbrev two_lives-Stops : Stops two_lives
two_lives-Stops = (omega arith, omega arith, (omega arith, omega arith, tt))

run_lives-Survived_example :
    Survived codec refusing_collector boot_relayed 8388608 two_lives
      (new_wal 8388608)
      []
      new_disk
      (relay none, 0)
run_lives-Survived_example =
    run_lives-Survived codec refusing_collector boot_relayed 8388608 (λ request. refl) (omega arith)
      (omega arith) two_lives (new_wal 8388608) [] new_disk (relay none, 0) open_exporter-new refl
      (new_wal-IsDurable 8388608) new_wal-IsValid two_lives-Fitting two_lives-Stops (omega arith)

run_lives-lossless_example : Delivered codec counting suc 8388608 two_lives [] new_disk 0
unfolding record_bytes
run_lives-lossless_example =
    run_lives-lossless codec counting suc 8388608 (λ request. refl) (omega arith) (omega arith)
      two_lives (new_wal 8388608) [] new_disk 0 open_exporter-new refl (new_wal-IsDurable 8388608)
      new_wal-IsValid two_lives-Fitting two_lives-Stops (omega arith) (omega arith)

-- A node id of the environment, and a flag that is no Boolean.
abbrev variables : Bytes → Option Bytes
variables name =
    if beq_bytes name (ascii "CROSSX_AGENT_NODE_ID")
    then some (110 ∷ [])
    else if beq_bytes name (ascii "CROSSX_AGENT_RELAY_ENABLED")
    then some (33 ∷ [])
    else none

abbrev parser : Parser
parser = record { parse_u64 = λ v. some 1; parse_u16 = λ v. some 2; parse_bool = λ v. none }

apply_env-Overlaid_example :
    Overlaid parser variables (default_agent []) (apply_env parser variables (default_agent []))
apply_env-Overlaid_example = apply_env-Overlaid parser variables (default_agent [])

run_forever-logs_example :
    apart_from_logs (run_forever true (logs_ended false ∷ relay_ended false ∷ []))
    ≡ run_forever true (without_logs (logs_ended false ∷ relay_ended false ∷ []))
run_forever-logs_example = run_forever-logs true (logs_ended false ∷ relay_ended false ∷ [])

-- A line of the journal that is a record, and a tick that finds new lines in a file.
abbrev journal_and_file : List LoopEvent
journal_and_file =
    lines ((10 ∷ []) ∷ (66 ∷ []) ∷ []) true
    ∷ tick true (
        record {
          at_open = some (record { signature = 7; bytes = [] });
          at_poll = some (record { signature = 7; bytes = 65 ∷ 10 ∷ [] });
          writable = true;
        }
        ∷ [])
    ∷ []

abbrev watching : LogSources (Unit {0})
watching = record {
  journald = following;
  cursor = none;
  files = (new_file_source, none) ∷ [];
  exporter = tt;
}

both_submitted :
    (run_rounds parse_line some accept_all
      (λ bs. accept_all (concat bs))
      journal_and_file
      (over_exporter watching [])).exporter
    ≡ (66 ∷ []) ∷ (65 ∷ []) ∷ []
unfolding run_rounds loop_event journal_record next_record next_line poll_file_sources poll_into
    opened open_tailer read_checkpoint start_of poll poll_lines split_inclusive start_offset
    is_complete strip_cr body_of deliver
both_submitted = refl

run_rounds-Logged_example :
    Logged codec refusing_collector []
      (new_wal 8388608)
      (relay none, 0)
      (run_rounds parse_line some
        (export_records codec refusing_collector)
        (λ bs. export_records codec refusing_collector (concat bs))
        journal_and_file
        (over_exporter watching (new_wal 8388608, (relay none, 0))))
      (run_rounds parse_line some accept_all
        (λ bs. accept_all (concat bs))
        journal_and_file
        (over_exporter watching []))
run_rounds-Logged_example =
    run_rounds-Logged codec refusing_collector [] (new_wal 8388608) (relay none, 0) (λ r. refl)
      (omega arith) (omega arith) parse_line some (λ s. s) concat journal_and_file watching
      (new_wal-IsDurable 8388608) new_wal-IsValid
      (subst (Submittable codec refusing_collector [] (new_wal 8388608) (relay none, 0))
        (sym both_submitted)
        ((omega arith, omega arith, (omega arith, omega arith, tt)), omega arith))

-- A payload that an outage left in the log.
new_wal-HasRoom : HasRoom (5 ∷ []) (new_wal 8388608)
new_wal-HasRoom = record {
  short = omega arith;
  fits = omega arith;
  full_segment = omega arith;
  sequences = omega arith;
  total = omega arith;
}

abbrev outage : Wal
outage = (append (5 ∷ []) (new_wal 8388608)).1

abbrev outage-Appended : Appended (new_wal 8388608) [] (5 ∷ []) (append (5 ∷ []) (new_wal 8388608))
outage-Appended = append-HasRoom (new_wal 8388608) [] (5 ∷ []) new_wal-IsValid new_wal-HasRoom

abbrev outage_queue : List Bytes
outage_queue = outage-Appended.older ++ ((5 ∷ []) ∷ [])

all-Decodable : (q : List Bytes) → Decodable codec counting q
all-Decodable [] = tt
all-Decodable (p ∷ q) = (λ e. cc e, all-Decodable q)

run_ticks-empties_example :
    let r = run_ticks codec counting suc ((7 ∷ []) ∷ []) outage 0 in
    (c : Conserved codec counting suc outage_queue ((7 ∷ []) ∷ []) outage 0 r.0 r.1) × (c.left ≡ [])
run_ticks-empties_example =
    run_ticks-empties codec counting suc (λ request. refl) always_accepts 8388608 (omega arith)
      (omega arith) ((7 ∷ []) ∷ []) outage outage_queue 0
      (append-IsDurable (new_wal 8388608) (5 ∷ []) (new_wal-IsDurable 8388608) new_wal-HasRoom)
      outage-Appended.valid (all-Decodable outage_queue) outage-Appended.same_max
      (omega arith, omega arith, tt) (omega (arith, outage-Appended.active))
      (omega (
        arith,
        ap length outage-Appended.split,
        length-append outage-Appended.dropped outage-Appended.older,
        length-append outage-Appended.older ((5 ∷ []) ∷ []),
      ))
