-- ===== src/Telemetry/Logged.antt =====
-- What a receiver can read back from the logs request.
use cross_xagent.Base.{
  ℕ, ◌*◌, ◌/◌, ◌%◌, ◌^◌, ◌<◌, ◌≡◌, refl, ap, ◌∙◌, List, [], ◌∷◌, map, arith, Bytes,
}
use cross_xagent.Relay.Enroll.{pos}
use cross_xagent.Telemetry.Records.{
  LogRecordSample, OtlpLogRecord, to_log_record, build_logs_export_request,
}

-- What a receiver takes from a record: its time in milliseconds, its severity, body and attributes.
abbrev pub received : OtlpLogRecord → LogRecordSample
received r = record {
  ts_ms = pos (r.time_unix_nano / 1000000);
  severity = r.severity_number;
  body = r.body;
  attrs = r.attributes;
}

-- The times are not before the epoch, and their nanoseconds fit a u64.
abbrev pub Stamped : List LogRecordSample → Type 0
Stamped [] = Unit
Stamped (r ∷ rs) = ((n : ℕ) × (r.ts_ms ≡ pos n) × (n * 1000000 < 2 ^ 64)) × Stamped rs

received-to_log_record :
    (r : LogRecordSample) (n : ℕ)
    → r.ts_ms ≡ pos n
    → n * 1000000 < 2 ^ 64
    → received (to_log_record r) ≡ r
received-to_log_record r n e small =
    let same : ((n * 1000000) % 2 ^ 64) / 1000000 ≡ n = omega (arith, small) in
    rw e (ap (λ m. record r { ts_ms = pos m }) same)

-- From a request of records whose times are not before the epoch and fit a u64 of nanoseconds, a
-- receiver takes exactly the samples, in their order.
pub build_logs_export_request-received :
    (node_id host_name : Bytes) (records : List LogRecordSample)
    → Stamped records
    → map received (build_logs_export_request node_id host_name records).log_records ≡ records
unfolding build_logs_export_request
build_logs_export_request-received node_id host_name [] h = refl
build_logs_export_request-received node_id host_name (r ∷ rs) ((n, e, small), h) =
    let tail = build_logs_export_request-received node_id host_name rs h in
    ap (λ x. x ∷ map received (map to_log_record rs)) (received-to_log_record r n e small)
    ∙ ap (λ l. r ∷ l) tail
