-- ===== src/Telemetry/Records.antt =====
-- The records of crates/agent-telemetry/src/logs.rs: a journald line becomes a sample, and samples
-- become one logs request. serde_json is a parameter.
use cross_xagent.Base.{
  ℕ, suc, ◌*◌, ◌/◌, ◌%◌, ◌^◌, Option, none, some, List, [], ◌∷◌, ◌++◌, map, Bytes, zero, leb, ◌==◌,
  if◌then◌else◌,
}
use cross_xagent.Relay.Auth.{ascii}
use cross_xagent.Relay.Enroll.{ℤ, pos, negsuc}

pub record LogRecordSample : Type 0 where
  pub ts_ms : ℤ
  pub severity : ℕ
  pub body : Bytes
  pub attrs : List (Bytes × Bytes)

-- `from_str`, `get`, `as_i64`, `as_str` of serde_json, and `parse::<i64>`.
pub record Json (Value : Type 0) : Type 0 where
  pub from_str : Bytes → Option Value
  pub get : Value → Bytes → Option Value
  pub as_i64 : Value → Option ℤ
  pub as_str : Value → Option Bytes
  pub parse_i64 : Bytes → Option ℤ

unfoldable pub journald_priority_to_severity : ℤ → ℕ
journald_priority_to_severity (pos n) =
    if leb n 2
    then 21
    else if n == 3
    then 17
    else if n == 4
    then 13
    else if leb n 6
    then 9
    else if n == 7
    then 5
    else 0
journald_priority_to_severity (negsuc n) = 0

abbrev negate : ℕ → ℤ
negate zero = pos 0
negate (suc n) = negsuc n

-- `timestamp_us / 1_000`, which rounds towards zero.
abbrev pub millis : ℤ → ℤ
millis (pos n) = pos (n / 1000)
millis (negsuc n) = negate (suc n / 1000)

abbrev pub or_else {ℓ} : {A : Type ℓ} → Option A → Option A → Option A
or_else (some a) other = some a
or_else none other = other

infixl 5 ◌>>=◌
abbrev pub ◌>>=◌ {ℓ κ} : {A : Type ℓ} {B : Type κ} → Option A → (A → Option B) → Option B
none >>= next = none
some value >>= next = next value

abbrev pub severity_or_zero : Option ℤ → ℕ
severity_or_zero none = 0
severity_or_zero (some priority) = journald_priority_to_severity priority

abbrev pub unit_attr : Option Bytes → List (Bytes × Bytes)
unit_attr none = []
unit_attr (some unit) = (ascii "_SYSTEMD_UNIT", unit) ∷ []

module _ {Value : Type 0} (json : Json Value) where
  unfoldable pub json_i64 : Value → Option ℤ
  json_i64 value = or_else (json.as_i64 value) (json.as_str value >>= json.parse_i64)

  unfoldable pub parse_journald_line : Bytes → Option LogRecordSample
  parse_journald_line line = do
    value ← json.from_str line
    stamp ← json.get value (ascii "__REALTIME_TIMESTAMP")
    timestamp_us ← json_i64 stamp
    message ← json.get value (ascii "MESSAGE")
    body ← json.as_str message
    some (record {
      ts_ms = millis timestamp_us;
      severity = severity_or_zero (json.get value (ascii "PRIORITY") >>= json_i64);
      body = body;
      attrs =
          unit_attr (json.get value (ascii "_SYSTEMD_UNIT") >>= json.as_str)
          ++ ((ascii "log.source", ascii "journald") ∷ []);
    })

pub record OtlpLogRecord : Type 0 where
  pub time_unix_nano : ℕ
  pub severity_number : ℕ
  pub body : Bytes
  pub attributes : List (Bytes × Bytes)

pub record LogsRequest : Type 0 where
  pub resource : List (Bytes × Bytes)
  pub scope_name : Bytes
  pub log_records : List OtlpLogRecord

abbrev pub nonnegative : ℤ → ℕ
nonnegative (pos n) = n
nonnegative (negsuc n) = 0

-- The multiplication of the release profile wraps.
abbrev pub to_log_record : LogRecordSample → OtlpLogRecord
to_log_record r = record {
  time_unix_nano = (nonnegative r.ts_ms * 1000000) % 2 ^ 64;
  severity_number = r.severity;
  body = r.body;
  attributes = r.attrs;
}

unfoldable pub build_logs_export_request : Bytes → Bytes → List LogRecordSample → LogsRequest
build_logs_export_request node_id host_name records = record {
  resource = (ascii "crossx.node.id", node_id) ∷ (ascii "host.name", host_name) ∷ [];
  scope_name = ascii "crossx-agent";
  log_records = map to_log_record records;
}
