-- ===== src/Agent/Exporter.antt =====
-- `LogsExporter` of crates/crossx-agent/src/logs.rs and `MetricsExporter` of export.rs: a batch is
-- sent at once where nothing waits before it, and otherwise goes through the write-ahead log. Both
-- export by the loop of `Retry`, over a collector that stands for `try_export` of each.
use cross_xagent.Base.{ℕ, zero, suc, true, false, Option, none, some, Bytes, ltb, if◌then◌else◌}
use cross_xagent.Wal.Disk.{Error, ok, err}
use cross_xagent.Wal.Ops.{Wal, append, next, ack, pending}
use cross_xagent.Agent.Retry.{Collector, export_with_retry}

abbrev pub max_wal_drain_per_tick : ℕ
max_wal_drain_per_tick = 32

pub data Outcome : Type 0 where
  done not_decoded not_exported : Outcome
  wal_failed : Error → Outcome

-- `encode_to_vec` and `decode` of prost.
pub record Codec (Request : Type 0) : Type 0 where
  pub encode : Request → Bytes
  pub decode : Bytes → Option Request

module _ {Request World : Type 0} (codec : Codec Request)
    (collector : Collector Request World) where
  -- The loop of `drain_wal`; the number of its rounds goes down.
  unfoldable pub drain_wal : ℕ → Wal → World → Outcome × Wal × World
  drain_wal zero wal w = (done, wal, w)
  drain_wal (suc rounds) wal w =
      let (head, wal1) = next wal in
      elim head [
        | err e ↦ (wal_failed e, wal1, w)
        | ok none ↦ (done, wal1, w)
        | ok (some entry) ↦ elim (codec.decode entry.payload) [
          | none ↦ (not_decoded, wal1, w)
          | some request ↦
              let (sent, w1) = export_with_retry collector request w in
              elim sent [
                | false ↦ (not_exported, wal1, w1)
                | true ↦
                    let (acked, wal2) = ack entry wal1 in
                    elim acked [
                      | err e ↦ (wal_failed e, wal2, w1)
                      | ok _ ↦ drain_wal rounds wal2 w1
                    ]
              ]
        ]
      ]

  -- `self.wal.append(&payload)?` with what follows a success.
  abbrev pub append_then :
      Bytes → Wal → World → (Wal → World → Outcome × Wal × World) → Outcome × Wal × World
  append_then payload wal w k =
      let (written, wal1) = append payload wal in
      elim written [ err e ↦ (wal_failed e, wal1, w) | ok _ ↦ k wal1 w ]

  -- A drain or an export that fails is only logged.
  abbrev pub accept : Outcome × Wal × World → Outcome × Wal × World
  accept (o, wal, w) = (done, wal, w)

  -- `LogsExporter::export_records` from the request on; without records nothing is called.
  unfoldable pub export_request : Request → Wal → World → Outcome × Wal × World
  export_request request wal w =
      if ltb 0 (pending wal)
      then append_then (codec.encode request) wal w
          (λ wal1 w1. accept (drain_wal max_wal_drain_per_tick wal1 w1))
      else (let (sent, w1) = export_with_retry collector request w in
          elim sent [
            | true ↦ (done, wal, w1)
            | false ↦ append_then (codec.encode request) wal w1 (λ wal1 w2. (done, wal1, w2))
          ])

  -- `MetricsExporter::export_tick` from the request on: a failed drain or export is an error.
  unfoldable pub export_tick : Request → Wal → World → Outcome × Wal × World
  export_tick request wal w =
      if ltb 0 (pending wal)
      then append_then (codec.encode request) wal w (drain_wal max_wal_drain_per_tick)
      else (let (sent, w1) = export_with_retry collector request w in
          elim sent [
            | true ↦ (done, wal, w1)
            | false ↦
                append_then (codec.encode request) wal w1 (λ wal1 w2. (not_exported, wal1, w2))
          ])
