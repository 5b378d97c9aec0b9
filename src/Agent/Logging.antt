-- ===== src/Agent/Logging.antt =====
-- The logs loop over its real exporter: `run_logs_loop` of crates/crossx-agent/src/logs.rs with
-- `LogsExporter` over the write-ahead log.
use cross_xagent.Base.{◌≡◌, refl, Bool, true, false, Bool-cases, inl, inr, List, [], ◌∷◌, ◌++◌, ltb}
use cross_xagent.Wal.Ops.{Wal, append, pending}
use cross_xagent.Agent.Retry.{Collector, export_with_retry}
use cross_xagent.Agent.Exporter.{
  Codec, Outcome, done, not_decoded, not_exported, wal_failed, export_request, export_tick,
  append_then,
}
use cross_xagent.Agent.Ticking.{Result-cases}

abbrev pub is_done : Outcome → Bool
is_done done = true
is_done not_decoded = false
is_done not_exported = false
is_done (wal_failed e) = false

-- An exporter that accepts everything, and keeps what it was given.
abbrev pub accept_all : {Request : Type 0} → Request → List Request → Bool × List Request
accept_all request requests = (true, requests ++ (request ∷ []))

module _ {Request World : Type 0} (codec : Codec Request)
    (collector : Collector Request World) where
  -- `LogsExporter::export_records` of a request: whether it succeeded, and the exporter's log beside
  -- the world.
  unfoldable pub export_records : Request → Wal × World → Bool × (Wal × World)
  export_records request (wal, w) =
      let (o, wal1, w1) = export_request codec collector request wal w in (is_done o, (wal1, w1))

  -- The two exporters leave the same log and world.
  pub export_request-export_tick :
      (request : Request) (wal : Wal) (w : World)
      → ((export_request codec collector request wal w).1
          ≡ (export_tick codec collector request wal w).1)
        × ((export_request codec collector request wal w).2
            ≡ (export_tick codec collector request wal w).2)
  unfolding export_request export_tick
  export_request-export_tick request wal w = elim (Bool-cases (ltb 0 (pending wal))) [
    | inl e ↦ elim (Result-cases (append (codec.encode request) wal).0) [
      | inl (err, f) ↦ rw e (rw (append_then, f) (refl, refl))
      | inr (u, f) ↦ rw e (rw (append_then, f) (refl, refl))
    ]
    | inr e ↦ elim (Bool-cases (export_with_retry collector request w).0) [
      | inl s ↦ rw (e, s) (refl, refl)
      | inr s ↦ elim (Result-cases (append (codec.encode request) wal).0) [
        | inl (err, f) ↦ rw (e, s) (rw (append_then, f) (refl, refl))
        | inr (u, f) ↦ rw (e, s) (rw (append_then, f) (refl, refl))
      ]
    ]
  ]
