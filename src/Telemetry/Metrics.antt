-- ===== src/Telemetry/Metrics.antt =====
-- What a receiver can read back from the metrics request.
use cross_xagent.Base.{
  ℕ, ◌*◌, ◌^◌, ◌<◌, ◌≡◌, refl, ap, ◌∙◌, arith, ◌&&◌, ◌==◌, ==-refl, if◌then◌else◌, Option, none,
  some, List, [], ◌∷◌, map, Bytes,
}
use cross_xagent.Relay.Enroll.{ℤ, pos}
use cross_xagent.Telemetry.Sampler.{SampleKind, gauge, cumulative_sum, MetricSample}
use cross_xagent.Telemetry.Otlp.{
  MetricData, gauge_data, sum_data, Metric, to_metric, to_unix_nano, build_export_request,
}

to_unix_nano-pos : (n : ℕ) → n * 1000000 < 2 ^ 64 → to_unix_nano (pos n) ≡ n * 1000000
unfolding to_unix_nano
to_unix_nano-pos n small = omega (arith, small)

module _ {F : Type 0} (start : ℕ) where
  abbrev read_data : Bytes → MetricData F → Option (MetricSample F × ℕ)
  read_data name (gauge_data (p ∷ [])) = some (
    record { name = name; value = p.as_double; attrs = p.attributes; kind = gauge },
    p.time_unix_nano,
  )
  read_data name (sum_data (p ∷ []) temporality is_monotonic) =
      if (temporality == 2 && is_monotonic) && p.start_time_unix_nano == start
      then some (
        record { name = name; value = p.as_double; attrs = p.attributes; kind = cumulative_sum },
        p.time_unix_nano,
      )
      else none
  read_data name other = none

  -- What a receiver takes from a metric: a gauge, or a monotonic cumulative sum from the start of the
  -- process, of exactly one point, with the time of that point.
  abbrev pub observed : Metric F → Option (MetricSample F × ℕ)
  observed m = read_data m.name m.metric_data

  observed-to_metric :
      (time : ℕ) (sample : MetricSample F) (kind : SampleKind)
      → sample.kind ≡ kind
      → observed (to_metric start time sample) ≡ some (sample, time)
  unfolding to_metric
  observed-to_metric time sample gauge e = rw e refl
  observed-to_metric time sample cumulative_sum e = rw (e, ==-refl start) refl

  observed-samples :
      (node_id host_name : Bytes) (ts_ms : ℤ) (samples : List (MetricSample F))
      → map observed (build_export_request start node_id host_name ts_ms samples).metrics
        ≡ map (λ s. some (s, to_unix_nano ts_ms)) samples
  unfolding build_export_request
  observed-samples node_id host_name ts_ms [] = refl
  observed-samples node_id host_name ts_ms (s ∷ samples) =
      rw (observed-to_metric (to_unix_nano ts_ms) s s.kind refl) (
        ap (λ l. some (s, to_unix_nano ts_ms) ∷ l)
          (observed-samples node_id host_name ts_ms samples))

  -- From the request of a tick at `n` milliseconds after the epoch, whose nanoseconds fit a u64, a
  -- receiver takes exactly the samples, in their order, each with the time of `n` times a million
  -- nanoseconds.
  pub build_export_request-observed :
      (node_id host_name : Bytes) (n : ℕ) (samples : List (MetricSample F))
      → n * 1000000 < 2 ^ 64
      → map observed (build_export_request start node_id host_name (pos n) samples).metrics
        ≡ map (λ s. some (s, n * 1000000)) samples
  build_export_request-observed node_id host_name n samples small =
      observed-samples node_id host_name (pos n) samples
      ∙ ap (λ t. map (λ s. some (s, t)) samples) (to_unix_nano-pos n small)
