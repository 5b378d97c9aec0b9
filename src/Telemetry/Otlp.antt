-- ===== src/Telemetry/Otlp.antt =====
-- crates/agent-telemetry/src/otlp.rs: the metrics request of one tick. Fields of the OTLP types that
-- stay at their defaults are left out; the start time of the process is a parameter.
use cross_xagent.Base.{
  ℕ, ◌*◌, ◌%◌, ◌^◌, Bool, true, Option, none, some, u64_max, ltb, if◌then◌else◌, List, [], ◌∷◌, map,
  Bytes,
}
use cross_xagent.Relay.Auth.{ascii}
use cross_xagent.Relay.Enroll.{ℤ}
use cross_xagent.Telemetry.Records.{nonnegative}
use cross_xagent.Telemetry.Sampler.{SampleKind, gauge, cumulative_sum, MetricSample}

pub record NumberDataPoint (F : Type 0) : Type 0 where
  pub attributes : List (Bytes × Bytes)
  pub start_time_unix_nano : ℕ
  pub time_unix_nano : ℕ
  pub as_double : F

-- `aggregation_temporality` is the number of the protobuf enumeration.
pub data MetricData (F : Type 0) : Type 0 where
  gauge_data : List (NumberDataPoint F) → MetricData F
  sum_data : List (NumberDataPoint F) → ℕ → Bool → MetricData F

pub record Metric (F : Type 0) : Type 0 where
  pub name : Bytes
  pub metric_data : MetricData F

pub record MetricsRequest (F : Type 0) : Type 0 where
  pub resource : List (Bytes × Bytes)
  pub scope_name : Bytes
  pub metrics : List (Metric F)

abbrev pub cumulative : ℕ
cumulative = 2

-- The multiplication of the release profile wraps.
unfoldable pub to_unix_nano : ℤ → ℕ
to_unix_nano ts_ms = (nonnegative ts_ms * 1000000) % 2 ^ 64

-- `process_start_unix_nanos`: the lock, and the nanoseconds of the clock since the epoch, which a clock
-- before it does not have. The first call fills the lock.
unfoldable pub process_start_unix_nanos : Option ℕ → Option ℕ → ℕ × Option ℕ
process_start_unix_nanos (some start) elapsed = (start, some start)
process_start_unix_nanos none none = (0, some 0)
process_start_unix_nanos none (some nanos) =
    let start = if ltb u64_max nanos then 0 else nanos in (start, some start)

module _ {F : Type 0} (process_start : ℕ) where
  abbrev point_of : MetricSample F → ℕ → NumberDataPoint F
  point_of sample time_unix_nano = record {
    attributes = sample.attrs;
    start_time_unix_nano = 0;
    time_unix_nano = time_unix_nano;
    as_double = sample.value;
  }

  abbrev data_of : SampleKind → NumberDataPoint F → MetricData F
  data_of gauge point = gauge_data (point ∷ [])
  data_of cumulative_sum point =
      sum_data (record point { start_time_unix_nano = process_start } ∷ []) cumulative true

  unfoldable pub to_metric : ℕ → MetricSample F → Metric F
  to_metric time_unix_nano sample = record {
    name = sample.name;
    metric_data = data_of sample.kind (point_of sample time_unix_nano);
  }

  unfoldable pub build_export_request : Bytes → Bytes → ℤ → List (MetricSample F) → MetricsRequest F
  build_export_request node_id host_name ts_ms samples = record {
    resource = (ascii "crossx.node.id", node_id) ∷ (ascii "host.name", host_name) ∷ [];
    scope_name = ascii "crossx-agent";
    metrics = map (to_metric (to_unix_nano ts_ms)) samples;
  }
