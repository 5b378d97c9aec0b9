-- ===== src/Agent/Accepting.antt =====
-- `export_records` of crates/crossx-agent/src/logs.rs keeps its word: a batch that it accepts was
-- exported, or is in the queue behind everything that waited before it.
use cross_xagent.Base.{
  ◌≡◌, ◌≢◌, refl, true, List, [], ◌∷◌, ◌++◌, Bytes, ltb, Bool-cases, inl, inr, ◌⊎◌,
}
use cross_xagent.Wal.Disk.{Error}
use cross_xagent.Wal.Ops.{Wal, append, pending}
use cross_xagent.Wal.Queue.{IsValid}
use cross_xagent.Wal.Delivery.{HasRoom, Appended, append-HasRoom}
use cross_xagent.Agent.Retry.{Collector, export_with_retry}
use cross_xagent.Agent.Exporter.{
  Codec, Outcome, done, not_exported, wal_failed, drain_wal, export_request, export_tick,
  append_then, max_wal_drain_per_tick,
}
use cross_xagent.Agent.Draining.{Sends, drain_wal_lem}

module _ {Request World : Type 0} (codec : Codec Request)
    (collector : Collector Request World) where
  -- The payload stands behind what was kept of the queue `q`; from a state `start` of the world the
  -- front of that was exported, and the rest is still in the log.
  pub record Queued (q : List Bytes) (payload : Bytes) (r : Outcome × Wal × World) : Type 0 where
    pub dropped : List Bytes
    pub older : List Bytes
    pub split : q ≡ dropped ++ older
    pub sent : List Bytes
    pub left : List Bytes
    pub in_order : older ++ (payload ∷ []) ≡ sent ++ left
    pub valid : IsValid r.1 left
    pub start : World
    pub reached : World
    pub sends : Sends codec collector start sent reached

  abbrev pub Kept : List Bytes → Request → Wal → World → Outcome × Wal × World → Type 0
  Kept q request wal w r =
      (r.0 ≡ done)
      × (((export_with_retry collector request w ≡ (true, r.2)) × (r.1 ≡ wal))
          ⊎ Queued q (codec.encode request) r)

  -- After the append and a drain.
  drained :
      (q : List Bytes) (payload : Bytes) (wal : Wal) (w : World) (o : Outcome)
      → Appended wal q payload (append payload wal)
      → Queued q payload (
        o,
        (drain_wal codec collector max_wal_drain_per_tick (append payload wal).1 w).1,
        (drain_wal codec collector max_wal_drain_per_tick (append payload wal).1 w).2,
      )
  drained q payload wal w o a =
      let d =
        drain_wal_lem codec collector max_wal_drain_per_tick (append payload wal).1
          (a.older ++ (payload ∷ [])) w a.valid in
      record {
        dropped = a.dropped;
        older = a.older;
        split = a.split;
        sent = d.sent;
        left = d.left;
        in_order = d.split;
        valid = d.valid;
        start = w;
        reached = d.reached;
        sends = d.sends;
      }

  -- After the append alone.
  appended :
      (q : List Bytes) (payload : Bytes) (wal : Wal) (w : World) (o : Outcome)
      → Appended wal q payload (append payload wal)
      → Queued q payload (o, (append payload wal).1, w)
  appended q payload wal w o a = record {
    dropped = a.dropped;
    older = a.older;
    split = a.split;
    sent = [];
    left = a.older ++ (payload ∷ []);
    in_order = refl;
    valid = a.valid;
    start = w;
    reached = w;
    sends = refl;
  }

  -- On a well-formed log with room for the batch, `export_records` succeeds: the batch was exported
  -- at once and the log is as before, or it was appended behind the kept part of the queue, whose
  -- front has been exported in order and whose rest is still in the log.
  pub export_request_lem :
      (request : Request) (wal : Wal) (q : List Bytes) (w : World)
      → IsValid wal q
      → HasRoom (codec.encode request) wal
      → Kept q request wal w (export_request codec collector request wal w)
  unfolding export_request
  export_request_lem request wal q w v room =
      let payload = codec.encode request in
      let a = append-HasRoom wal q payload v room in
      elim (Bool-cases (ltb 0 (pending wal))) [
        | inl e ↦ rw e (rw (append_then, a.succeeds) (refl, inr (drained q payload wal w done a)))
        | inr e ↦ elim (Bool-cases (export_with_retry collector request w).0) [
          | inl s ↦ rw (e, s) (refl, inl (refl, refl))
          | inr s ↦
              rw (e, s) (rw (append_then, a.succeeds) (refl, inr (appended q payload wal _ done a)))
        ]
      ]

  -- The batch of a tick, whatever the outcome: exported at once with the log as before, or behind the
  -- kept part of the queue.
  abbrev pub Ticked : List Bytes → Request → Wal → World → Outcome × Wal × World → Type 0
  Ticked q request wal w r =
      ((r.0 ≡ done) × (export_with_retry collector request w ≡ (true, r.2)) × (r.1 ≡ wal))
      ⊎ (Queued q (codec.encode request) r × ((e : Error) → r.0 ≢ wal_failed e))

  -- On a well-formed log with room for the batch, `export_tick` loses no batch: it was exported at
  -- once and the log is as before, or it was appended behind the kept part of the queue, whose front
  -- has been exported in order and whose rest is still in the log; the log itself does not fail.
  export_tick_lem :
      (request : Request) (wal : Wal) (q : List Bytes) (w : World)
      → IsValid wal q
      → HasRoom (codec.encode request) wal
      → Ticked q request wal w (export_tick codec collector request wal w)
  unfolding export_tick
  export_tick_lem request wal q w v room =
      let payload = codec.encode request in
      let a = append-HasRoom wal q payload v room in
      let d =
        drain_wal_lem codec collector max_wal_drain_per_tick (append payload wal).1
          (a.older ++ (payload ∷ [])) w a.valid in
      elim (Bool-cases (ltb 0 (pending wal))) [
        | inl e ↦ rw e (
            rw (append_then, a.succeeds)
              (inr (drained q payload wal w _ a, λ error failed. absurd (rw failed at d.stopped))))
        | inr e ↦ elim (Bool-cases (export_with_retry collector request w).0) [
          | inl s ↦ rw (e, s) (inl (refl, refl, refl))
          | inr s ↦
              rw (e, s)
                (rw (append_then, a.succeeds)
                  (inr (appended q payload wal _ not_exported a, λ error failed. cc)))
        ]
      ]
