-- ===== src/Telemetry/Tests.antt =====
-- Runs of the log sources, and the theorems at concrete inputs.
use cross_xagent.Base.{
  ℕ, suc, ◌+◌, ◌≡◌, ◌≤◌, refl, ◌⊎◌, none, false, some, List, [], ◌∷◌, map, arith,
}
use cross_xagent.Telemetry.Tailer.{
  Tailer, LogFile, ok, split_inclusive, is_complete, strip_cr, body_of, poll_lines, open_tailer,
  tailer_at, persist_checkpoint,
}
use cross_xagent.Relay.Enroll.{pos}
use cross_xagent.Telemetry.Sampler.{
  Interface, gauge, cumulative_sum, MetricSample, is_loopback, network_totals,
}
use cross_xagent.Telemetry.Otlp.{build_export_request}
use cross_xagent.Telemetry.Counters.{start, keep_on, network_totals-Continues}
use cross_xagent.Telemetry.Metrics.{observed, build_export_request-observed}
use cross_xagent.Telemetry.Lines.{Polled, poll_lines_lem}
use cross_xagent.Relay.Auth.{ascii}
use cross_xagent.Telemetry.Records.{LogRecordSample, build_logs_export_request}
use cross_xagent.Telemetry.Logged.{received, build_logs_export_request-received}
use cross_xagent.Telemetry.Checkpoints.{
  checkpoint_name, path_hash, hex_digits, CheckpointFiles, persist_writes, stopped_after,
}
use cross_xagent.Telemetry.Warmup.{Host, new_sampler, new_sampler-warmed}
use cross_xagent.Telemetry.Replacing.{open_tailer-stopped}

-- A whole line with a carriage return, and one that waits for its newline.
held_back : poll_lines false 9 0 (split_inclusive (65 ∷ 13 ∷ 10 ∷ 66 ∷ [])) ≡ ((65 ∷ []) ∷ [], 3)
unfolding poll_lines split_inclusive is_complete strip_cr body_of
held_back = refl

abbrev reached : Tailer
reached = record { offset = 0; signature = 7; pending_offset = 2; pending_signature = 7 }

abbrev log_file : LogFile
log_file = record { signature = 7; bytes = 65 ∷ 10 ∷ 66 ∷ [] }

abbrev replaced : LogFile
replaced = record { signature = 8; bytes = 65 ∷ [] }

poll_lines_lem_example :
    Polled false 9 0
      ((65 ∷ 10 ∷ []) ∷ (66 ∷ []) ∷ [])
      (poll_lines false 9 0 ((65 ∷ 10 ∷ []) ∷ (66 ∷ []) ∷ []))
poll_lines_lem_example = poll_lines_lem false 9 0 ((65 ∷ 10 ∷ []) ∷ (66 ∷ []) ∷ [])

-- The next place of the same file.
abbrev reached_later : Tailer
reached_later = record reached { pending_offset = 3 }

abbrev first_checkpoint : CheckpointFiles
first_checkpoint = record { temp = none; checkpoint = some (persist_checkpoint reached).0 }

open_tailer-stopped_example :
    let after = stopped_after 2 5 (persist_writes reached_later) first_checkpoint in
    (open_tailer after.checkpoint log_file ≡ ok (tailer_at 2 log_file))
    ⊎ (open_tailer after.checkpoint log_file ≡ ok (tailer_at 3 log_file))
open_tailer-stopped_example =
    open_tailer-stopped 2 5 reached reached_later first_checkpoint log_file refl (omega arith)
      (omega arith) (omega arith) refl refl (omega arith) (omega arith)

-- The name of the checkpoint of `/a`.
name_of_a : checkpoint_name (ascii "/a") ≡ ascii "file-07d66707b49cd92d.checkpoint"
unfolding checkpoint_name path_hash hex_digits
name_of_a = refl

abbrev two_records : List LogRecordSample
two_records =
    record { ts_ms = pos 1700000000000; severity = 9; body = 1 ∷ []; attrs = [] }
    ∷ record { ts_ms = pos 1700000000001; severity = 0; body = []; attrs = (1 ∷ [], 2 ∷ []) ∷ [] }
    ∷ []

build_logs_export_request-received_example :
    map received (build_logs_export_request (1 ∷ []) (2 ∷ []) two_records).log_records ≡ two_records
build_logs_export_request-received_example =
    build_logs_export_request-received (1 ∷ []) (2 ∷ []) two_records
      ((1700000000000, refl, omega arith), ((1700000000001, refl, omega arith), tt))

abbrev wired : Interface
wired = record {
  name = 101 ∷ 116 ∷ 104 ∷ 48 ∷ [];
  loopback_addresses = [];
  total_received = 5;
  total_transmitted = 6;
}

abbrev wireless : Interface
wireless = record wired { name = 119 ∷ 108 ∷ [] }

abbrev wired_later : Interface
wired_later = record wired { total_received = 8 }

same_kind : is_loopback wired ≡ is_loopback wired_later
unfolding is_loopback
same_kind = refl

network_totals-Continues_example :
    ((network_totals (wired ∷ [])).0 ≤ (network_totals (wireless ∷ wired_later ∷ [])).0)
    × ((network_totals (wired ∷ [])).1 ≤ (network_totals (wireless ∷ wired_later ∷ [])).1)
network_totals-Continues_example =
    network_totals-Continues (wired ∷ []) (wireless ∷ wired_later ∷ []) (
      keep_on wired wired_later [] (wireless ∷ []) [] (wireless ∷ wired_later ∷ []) same_kind
        (omega arith) (omega arith) (start (wireless ∷ [])) refl)

abbrev two_samples : List (MetricSample ℕ)
two_samples =
    record { name = 1 ∷ []; value = 3; attrs = []; kind = gauge }
    ∷ record { name = 2 ∷ []; value = 4; attrs = []; kind = cumulative_sum }
    ∷ []

build_export_request-observed_example :
    map (observed 9) (build_export_request 9 (1 ∷ []) (2 ∷ []) (pos 1000) two_samples).metrics
    ≡ map (λ s. some (s, 1000000000)) two_samples
build_export_request-observed_example =
    build_export_request-observed 9 (1 ∷ []) (2 ∷ []) 1000 two_samples (omega arith)

-- A host whose clock moves on by one with every reading.
abbrev ticking : Host (Unit {0}) (Unit {0}) (Unit {0}) ℕ
ticking = record {
  new_system = tt;
  refresh_cpu_usage = λ s n. (s, suc n);
  refresh_memory = λ s n. (s, suc n);
  new_networks = λ n. (tt, suc n);
  new_disks = λ n. (tt, suc n);
  now = λ n. n;
  sleep = λ d n. n + d;
  minimum_cpu_update_interval = 200;
}

new_sampler-warmed_example : 5 + 200 ≤ (new_sampler ticking 5).1
new_sampler-warmed_example =
    new_sampler-warmed ticking 5 (λ s v. omega arith) (λ s v. omega arith) (λ v. omega arith)
      (λ v. omega arith) (λ d v. omega arith)
