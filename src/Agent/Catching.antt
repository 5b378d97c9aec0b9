-- ===== src/Agent/Catching.antt =====
-- The ticks of `run_loop` at a collector that accepts again: the queue that an outage left empties.
use cross_xagent.Base.{
  ℕ, ◌+◌, ◌*◌, ◌≤◌, ◌≡◌, refl, ap, ◌∙◌, ◌⊎◌, true, Bool-cases, inl, inr, some, List, [], ◌∷◌, ◌++◌,
  arith, Bytes, u64_max, length, length-append, ltb, ltb→le,
}
use mathlib.Core.Path.{subst}
use cross_xagent.Wal.Record.{segment_max_bytes}
use cross_xagent.Wal.Ops.{Wal, append, pending}
use cross_xagent.Wal.Queue.{IsValid}
use cross_xagent.Wal.Delivery.{HasRoom, append-HasRoom}
use cross_xagent.Wal.Reopening.{IsDurable, IsDurable-HasRoom}
use cross_xagent.Wal.Settled.{Settled-refl}
use cross_xagent.Agent.Retry.{Collector, export_with_retry}
use cross_xagent.Agent.Exporter.{Codec, drain_wal, export_tick, append_then, max_wal_drain_per_tick}
use cross_xagent.Agent.Draining.{drain_wal_lem}
use cross_xagent.Agent.Emptying.{Decodable, Decodable-later, unstopped}
use cross_xagent.Agent.Fates.{idle}
use cross_xagent.Agent.Conserving.{
  Conserved, Conserved-then, left-Conserved-then, settles, left-settles, appends,
}
use cross_xagent.Agent.Ticking.{
  drains, left-drains, directly, left-directly, empty_queue, no_records,
}
use cross_xagent.Agent.Running.{run_ticks}
use cross_xagent.Agent.Lives.{payloads, Fitting}

module _ {Request World : Type 0} (codec : Codec Request) (collector : Collector Request World)
    (boot : World → World)
    (decodes : (request : Request) → codec.decode (codec.encode request) ≡ some request)
    (accepts : (request : Request) (w : World)
      → (export_with_retry collector request w).0 ≡ true) where
  Decodable-concat :
      (q : List Bytes) (request : Request)
      → Decodable codec collector q
      → Decodable codec collector (q ++ (codec.encode request ∷ []))
  Decodable-concat [] request h = (λ e. cc (decodes request), tt)
  Decodable-concat (p ∷ q) request h = (h.0, Decodable-concat q request h.1)

  -- What is left, after a drain, of a queue of payloads that decode.
  drained_less :
      (wal : Wal) (q : List Bytes) (w : World) (v : IsDurable wal) (valid : IsValid wal q)
      → Decodable codec collector q
      → let c = drains codec collector boot max_wal_drain_per_tick wal q w v valid in
        (c.left ≡ []) ⊎ (length c.left + max_wal_drain_per_tick ≤ length q)
  drained_less wal q w v valid h =
      let r = drain_wal codec collector max_wal_drain_per_tick wal w in
      let e = drain_wal_lem codec collector max_wal_drain_per_tick wal q w valid in
      let same = left-drains codec collector boot max_wal_drain_per_tick wal q w v valid in
      let later = Decodable-later codec collector e.sent e.left (rw (← e.split) h) in
      elim (unstopped codec collector accepts r.0 e.left e.unused e.reached r.2 later e.stopped).1 [
        | inl nil ↦ inl (same ∙ nil)
        | inr spent ↦ inr (
            omega
              (arith, ap length same, ap length e.split, length-append e.sent e.left, e.counted))
      ]

  -- What a stretch leaves, with the queue empty or shorter by 31.
  abbrev Shorter : (q ps : List Bytes) → Wal → World → Wal → World → Type 0
  Shorter q ps wal w wal' w' =
      (c : Conserved codec collector boot q ps wal w wal' w') × ((c.left ≡ [])
        ⊎ (length c.left + 31 ≤ length q))

  -- A tick takes 32 payloads from a queue of more, and all of a shorter one.
  export_tick-Shorter :
      (request : Request) (wal : Wal) (q : List Bytes) (w : World)
      → IsDurable wal
      → IsValid wal q
      → Decodable codec collector q
      → HasRoom (codec.encode request) wal
      → Shorter q
          (codec.encode request ∷ [])
          wal
          w
          (export_tick codec collector request wal w).1
          (export_tick codec collector request wal w).2
  unfolding export_tick pending
  export_tick-Shorter request wal q w v valid h room =
      let p = codec.encode request in
      let wal1 = (append p wal).1 in
      let a = append-HasRoom wal q p valid room in
      let r = export_with_retry collector request w in
      let sent = accepts request w in
      elim (Bool-cases (ltb 0 (pending wal))) [
        | inl some_pending ↦
            let c = appends codec collector boot q p wal w v valid room in
            let h' =
              Decodable-later codec collector c.gone c.left
                (subst (Decodable codec collector) c.split (Decodable-concat q request h)) in
            let d =
              drains codec collector boot max_wal_drain_per_tick wal1 c.left w c.durable c.valid in
            let e = left-Conserved-then codec collector boot q (p ∷ []) [] wal wal1 _ w w _ c d in
            let less = drained_less wal1 c.left w c.durable c.valid h' in
            rw some_pending (
              rw (append_then, a.succeeds)
                (
                  Conserved-then codec collector boot q (p ∷ []) [] wal wal1 _ w w _ c d,
                  elim less [
                    | inl nil ↦ inl (e ∙ nil)
                    | inr fewer ↦ inr (
                        omega (
                          arith,
                          ap length e,
                          fewer,
                          ap length c.split,
                          length-append q (p ∷ []),
                          length-append c.gone c.left,
                        ))
                  ],
                ))
        | inr nothing_pending ↦
            let nil : q ≡ [] =
              empty_queue wal.disk.files wal.records q valid.reads
                (no_records wal.records (ltb→le 0 (pending wal) nothing_pending)) in
            let accepted = ap (λ b. (b, r.1)) sent in
            let valid' = rw nil at valid in
            rw (nothing_pending, sent, nil)
              (
                directly codec collector boot request wal w r.1 (decodes request) accepted v valid',
                inl (
                    left-directly codec collector boot request wal w r.1 (decodes request) accepted
                      v valid'),
              )
      ]

  module _ (max_bytes : ℕ) (big : segment_max_bytes ≤ max_bytes)
      (small : max_bytes + max_bytes ≤ u64_max) where
    -- At a collector that accepts everything, on a log that its files determine, with a cap that holds
    -- a full segment and twice fits a u64, whose queue decodes: ticks whose payloads fit the header of
    -- a record and the cap, and are no more than the sequence numbers left, leave nothing in the queue
    -- where it had at most 31 payloads for each of them; what was in it and what the ticks submitted
    -- was exported in order, or dropped by the cap.
    pub run_ticks-empties :
        (requests : List Request) (wal : Wal) (q : List Bytes) (w : World)
        → IsDurable wal
        → IsValid wal q
        → Decodable codec collector q
        → wal.max_bytes ≡ max_bytes
        → Fitting max_bytes (payloads codec requests)
        → wal.active_segment + length (payloads codec requests) ≤ u64_max
        → length q ≤ 31 * length (payloads codec requests)
        → let r = run_ticks codec collector boot requests wal w in
          (c : Conserved codec collector boot q (payloads codec requests) wal w r.0 r.1) × (c.left
            ≡ [])
    unfolding run_ticks
    run_ticks-empties [] wal [] w v valid h same fitting numbers few = (
      settles codec collector boot [] [] [] wal wal w w (Settled-refl wal v) refl valid (idle w),
      left-settles codec collector boot [] [] [] wal wal w w (Settled-refl wal v) refl valid
          (idle w),
    )
    run_ticks-empties [] wal (p ∷ q) w v valid h same fitting numbers few = absurd (omega arith)
    run_ticks-empties (request ∷ requests) wal q w v valid h same (short, fits, fitting) numbers
          few =
        let p = codec.encode request in
        let ps = payloads codec requests in
        let room =
          IsDurable-HasRoom wal p v (omega (arith, same)) (omega (arith, same)) short
            (omega (arith, same)) (omega arith) in
        let r = export_tick codec collector request wal w in
        let (c, shorter) = export_tick-Shorter request wal q w v valid h room in
        let h' =
          Decodable-later codec collector c.gone c.left
            (subst (Decodable codec collector) c.split (Decodable-concat q request h)) in
        let rest : length c.left ≤ 31 * length ps = elim shorter [
          | inl nil ↦ rw nil (omega arith)
          | inr fewer ↦ omega (arith, fewer, few)
        ] in
        let (d, nil) =
          run_ticks-empties requests r.1 c.left r.2 c.durable c.valid h' (c.same_max ∙ same) fitting
            (omega (arith, c.active, numbers)) rest in
        (
          Conserved-then codec collector boot q (p ∷ []) ps wal r.1 _ w r.2 _ c d,
          left-Conserved-then codec collector boot q (p ∷ []) ps wal r.1 _ w r.2 _ c d ∙ nil,
        )
