-- ===== src/Agent/Tests.antt =====
-- Runs of the exporters, and the theorems at concrete inputs.
use cross_xagent.Base.{
  ℕ, suc, ◌+◌, ◌≡◌, refl, none, some, true, false, Option, if◌then◌else◌, ltb, List, [], ◌∷◌, arith,
  Bytes, le_bytes, le_value,
}
use cross_xagent.Wal.Disk.{find_file, contents}
use cross_xagent.Wal.Record.{crc32, encode_record, read_record, read_at, read_exact}
use cross_xagent.Wal.Ops.{Wal}
use cross_xagent.Wal.Queue.{IsValid}
use cross_xagent.Agent.Retry.{accepted, Collector, try_again, export_with_retry}
use cross_xagent.Agent.Exporter.{Codec, drain_wal, export_request}
use cross_xagent.Wal.Delivery.{HasRoom}
use cross_xagent.Agent.Accepting.{Kept, export_request_lem}
use cross_xagent.Agent.Draining.{Drained, drain_wal_lem}
use cross_xagent.Agent.Transport.{
  value, refused, Transport, direct, relay, Net, channel_of, send_request, try_export,
  metrics_collector,
}
use cross_xagent.Agent.LogsRetry.{
  LogsNet, export_logs_with_retry, logs_attempts, rest_before, try_export_logs, send_logs,
}
use cross_xagent.Agent.Direct.{SameCollector, export_with_retry-export_logs_with_retry}
use cross_xagent.Agent.Channels.{IsIdle, export_with_retry-IsIdle}
use cross_xagent.Agent.Proxy.{connect_failed, registered}
use cross_xagent.Agent.Journald.{Follower, JournaldSource, new_source}
use cross_xagent.Agent.Sources.{new_file_source}
use cross_xagent.Agent.Following.{
  State, Event, grows, restarts, ticks, steps, checkpoint_at, IsServed,
}
use cross_xagent.Agent.Serving.{steps-IsServed}
use cross_xagent.Agent.Loop.{lines, LogSources, loop_event}
use cross_xagent.Agent.Looping.{CursorKept, loop_event-CursorKept}
use cross_xagent.Agent.Restart.{IsBackoff, run_events, run_events-IsBackoff}

abbrev pub codec : Codec Bytes
codec = record { encode = λ r. r; decode = some }

-- A collector that accepts everything, and counts it.
abbrev pub counting : Collector Bytes ℕ
counting = record { try_export = λ r n. (accepted, suc n); sleep = λ d n. n; subsec_nanos = λ n. 0 }

-- A log of one payload.
abbrev waiting : Wal
waiting = record {
  disk = record { files = (0, encode_record (7 ∷ [])) ∷ []; cursor_file = none };
  max_bytes = 64;
  active_segment = 0;
  cursor = record { segment = 0; offset = 0 };
  records = record { segment = 0; offset = 0; payload_len = 1 } ∷ [];
}

waiting-IsValid : IsValid waiting ((7 ∷ []) ∷ [])
unfolding le_bytes le_value find_file contents crc32 encode_record read_record read_at read_exact
waiting-IsValid = record {
  files = refl;
  order = (omega arith, omega arith, tt);
  reads = (refl, tt);
  room = omega arith;
}

drain_wal_lem_example :
    Drained codec counting 32 ((7 ∷ []) ∷ []) 0 (drain_wal codec counting 32 waiting 0)
drain_wal_lem_example = drain_wal_lem codec counting 32 waiting ((7 ∷ []) ∷ []) 0 waiting-IsValid

run_events-IsBackoff_example : IsBackoff (run_events (connect_failed 3 ∷ registered ∷ []) 1000)
run_events-IsBackoff_example =
    run_events-IsBackoff (connect_failed 3 ∷ registered ∷ []) 1000 (omega arith)

abbrev pub silent : Follower
silent = record { pending_cursor = none; spawned_with_cursor = true; produced_any_record = false }

abbrev pub following : JournaldSource
following = record (new_source true) { follower = some silent }

-- A log with a cap of 8 MiB that holds nothing yet.
abbrev roomy : Wal
roomy = record {
  disk = record { files = (0, []) ∷ []; cursor_file = none };
  max_bytes = 8388608;
  active_segment = 0;
  cursor = record { segment = 0; offset = 0 };
  records = [];
}

roomy-IsValid : IsValid roomy []
unfolding contents find_file
roomy-IsValid = record { files = refl; order = tt; reads = tt; room = omega arith }

roomy-HasRoom : HasRoom (7 ∷ []) roomy
roomy-HasRoom = record {
  short = omega arith;
  fits = omega arith;
  full_segment = omega arith;
  sequences = omega arith;
  total = omega arith;
}

export_request_lem_example :
    Kept codec counting [] (7 ∷ []) roomy 0 (export_request codec counting (7 ∷ []) roomy 0)
export_request_lem_example =
    export_request_lem codec counting (7 ∷ []) roomy [] 0 roomy-IsValid roomy-HasRoom

pub always_accepts : (request : Bytes) (n : ℕ) → (export_with_retry counting request n).0 ≡ true
unfolding export_with_retry
always_accepts request n = refl

-- A relay whose pipes open, and whose collector refuses every request.
abbrev pub refusing : Net Bytes ℕ ℕ ℕ
refusing = record {
  connect = λ n. (value n, n);
  recv = λ n. (value n, suc n);
  over_pipe = λ p n. (value p, n);
  export = λ c token request n. (refused, n);
  parse_metadata = some;
}

abbrev pub refusing_collector : Collector Bytes (Transport ℕ × ℕ)
refusing_collector = metrics_collector refusing [] (λ d n. n) (λ n. 0)

all_refused : (export_with_retry refusing_collector (7 ∷ []) (relay none, 0)).0 ≡ false
unfolding export_with_retry try_again metrics_collector try_export channel_of send_request
all_refused = refl

-- The client of the logs service at the same collector.
abbrev refusing_logs : LogsNet Bytes ℕ ℕ
refusing_logs = record {
  connect = λ n. (value n, n);
  export = λ c token request n. (refused, n);
  parse_metadata = some;
}

refusing-SameCollector : SameCollector refusing refusing_logs
refusing-SameCollector = record {
  connect = λ w. refl;
  export = λ channel bearer request w. refl;
  parse_metadata = λ text. refl;
}

-- The world counts the milliseconds that were slept.
export_with_retry-export_logs_with_retry_example :
    let r = export_logs_with_retry refusing_logs (7 ∷ []) (λ d n. n + d) (λ n. 300) (7 ∷ []) 0 in
    export_with_retry
      (metrics_collector refusing (7 ∷ []) (λ d n. n + d) (λ n. 300))
      (7 ∷ [])
      (direct, 0)
    ≡ (r.0, (direct, r.1))
export_with_retry-export_logs_with_retry_example =
    export_with_retry-export_logs_with_retry refusing refusing_logs refusing-SameCollector (7 ∷ [])
      (λ d n. n + d) (λ n. 300) (7 ∷ []) 0

slept_three_times :
    export_logs_with_retry refusing_logs (7 ∷ []) (λ d n. n + d) (λ n. 300) (7 ∷ []) 0
    ≡ (false, 10650)
unfolding export_logs_with_retry logs_attempts rest_before try_export_logs send_logs
slept_three_times = refl

export_with_retry-IsIdle_example :
    IsIdle refusing (export_with_retry refusing_collector (7 ∷ []) (relay none, 0)).1.0
export_with_retry-IsIdle_example =
    export_with_retry-IsIdle refusing [] (λ d n. n) (λ n. 0) (7 ∷ []) (relay none) 0 all_refused

-- Three bytes of a log, of which none has been delivered.
abbrev untouched : State
untouched = record {
  file = record { signature = 7; bytes = 65 ∷ 10 ∷ 66 ∷ [] };
  source = new_file_source;
  checkpoint = some (checkpoint_at 0 7);
  history = [];
}

-- A refused batch, more lines, a restart, and a tick that delivers.
abbrev run_of_four : List Event
run_of_four =
    ticks true true false true ∷ grows (67 ∷ 10 ∷ []) ∷ restarts ∷ ticks true true true true ∷ []

steps-IsServed_example : IsServed 0 (steps run_of_four untouched)
steps-IsServed_example =
    steps-IsServed 0 run_of_four untouched refl refl (omega arith) (omega arith) (omega arith)

-- Lines that are records from the letter A on, with the line as its cursor.
abbrev pub parse_line : Bytes → Option Bytes
parse_line [] = none
parse_line (c ∷ line) = if ltb c b'A' then none else some (c ∷ line)

abbrev sources : LogSources ℕ
sources = record { journald = following; cursor = none; files = []; exporter = 0 }

loop_event-CursorKept_example :
    CursorKept parse_line some
      (λ sample n. (true, suc n))
      (lines ((10 ∷ []) ∷ (66 ∷ []) ∷ []) true)
      sources
      (loop_event parse_line some
        (λ sample n. (true, suc n))
        (λ bodies n. (true, suc n))
        (lines ((10 ∷ []) ∷ (66 ∷ []) ∷ []) true)
        sources)
loop_event-CursorKept_example =
    loop_event-CursorKept parse_line some (λ sample n. (true, suc n)) (λ bodies n. (true, suc n))
      (lines ((10 ∷ []) ∷ (66 ∷ []) ∷ []) true) sources
