-- ===== src/Agent/Ticking.antt =====
-- One tick of the metrics exporter conserves what was submitted.
use cross_xagent.Base.{
  ℕ, zero, suc, ◌≡◌, refl, ap, true, false, Bool-cases, Option-cases, ◌⊎◌, inl, inr, ◌≤◌, length,
  some, List, [], ◌∷◌, arith, Bytes, ltb, ltb→le,
}
use mathlib.Core.List.{append-nil}
use cross_xagent.Wal.Disk.{Files, ok, err, Result, Error}
use cross_xagent.Wal.Record.{RecordMeta}
use cross_xagent.Wal.Ops.{Wal, append, next, ack, pending}
use cross_xagent.Wal.Reads.{Reads}
use cross_xagent.Wal.Queue.{IsValid}
use cross_xagent.Wal.Delivery.{HasRoom, append-HasRoom}
use cross_xagent.Wal.Reopening.{IsDurable}
use cross_xagent.Wal.Settled.{Settled, Settled-refl, Settled-then, next-Settled, ack-Settled}
use cross_xagent.Agent.Retry.{Collector, export_with_retry}
use cross_xagent.Agent.Exporter.{Codec, drain_wal, export_tick, append_then, max_wal_drain_per_tick}
use cross_xagent.Agent.Draining.{drain_wal_lem}
use cross_xagent.Agent.Fates.{
  over, was_sent, record_bytes, idle, delivered, attempted, Exports-append, Exports-of_Sends,
  Exports-of_Stopped,
}
use cross_xagent.Agent.Conserving.{Conserved, Conserved-then, settles, left-settles, appends}

-- Nothing pending means an empty queue.
pub empty_queue :
    (fs : Files) (ms : List RecordMeta) (q : List Bytes) → Reads fs ms q → ms ≡ [] → q ≡ []
empty_queue fs [] [] h e = refl
empty_queue fs [] (p ∷ q) h e = absurd h
empty_queue fs (m ∷ ms) q h e = absurd (cc e)

pub no_records : (ms : List RecordMeta) → length ms ≤ 0 → ms ≡ []
no_records [] h = refl
no_records (m ∷ ms) h = absurd (omega arith)

pub Result-cases :
    {A : Type 0} (r : Result A) → ((e : Error) × (r ≡ err e)) ⊎ ((a : A) × (r ≡ ok a))
Result-cases (err e) = inl (e, refl)
Result-cases (ok a) = inr (a, refl)

module _ {Request World : Type 0} (codec : Codec Request) (collector : Collector Request World)
    (boot : World → World) where
  -- Whatever a drain meets, it only calls `next` and `ack`.
  pub drain_wal-Settled :
      (rounds : ℕ) (wal : Wal) (w : World)
      → IsDurable wal
      → Settled wal (drain_wal codec collector rounds wal w).1
  unfolding drain_wal
  drain_wal-Settled zero wal w v = Settled-refl wal v
  drain_wal-Settled (suc rounds) wal w v =
      let wal1 = (next wal).1 in
      let s = next-Settled wal v in
      elim (Result-cases (next wal).0) [
        | inl (e, failed) ↦ rw (drain_wal, failed) s
        | inr (head, found) ↦ elim (Option-cases head) [
          | inl nothing ↦ rw (drain_wal, found, nothing) s
          | inr (entry, e) ↦
              rw (drain_wal, found, e)
                (elim (Option-cases (codec.decode entry.payload)) [
                  | inl undecoded ↦ rw undecoded s
                  | inr (request, decoded) ↦
                      let r = export_with_retry collector request w in
                      rw decoded (elim (Bool-cases r.0) [
                        | inr failed ↦ rw failed s
                        | inl sent ↦
                            let t = Settled-then wal wal1 _ s (ack-Settled wal1 entry s.durable) in
                            rw sent (elim (Result-cases (ack entry wal1).0) [
                              | inl (e', failed) ↦ rw failed t
                              | inr (u, acked) ↦ rw acked (
                                  Settled-then wal _ _ t
                                    (drain_wal-Settled rounds (ack entry wal1).1 r.1 t.durable))
                            ])
                      ])
                ])
        ]
      ]

  -- A drain.
  pub drains :
      (rounds : ℕ) (wal : Wal) (q : List Bytes) (w : World)
      → IsDurable wal
      → IsValid wal q
      → Conserved codec collector boot q [] wal w
          (drain_wal codec collector rounds wal w).1
          (drain_wal codec collector rounds wal w).2
  drains rounds wal q w v valid =
      let d = drain_wal_lem codec collector rounds wal q w valid in
      settles codec collector boot q d.sent d.left wal _ w _ (drain_wal-Settled rounds wal w v)
        d.split d.valid
        (rw append-nil at (
          Exports-append codec collector boot
            (Exports-of_Sends codec collector boot d.sent w d.reached d.sends)
            (Exports-of_Stopped codec collector boot _ d.left d.unused d.reached _ d.stopped)))

  pub left-drains :
      (rounds : ℕ) (wal : Wal) (q : List Bytes) (w : World) (v : IsDurable wal)
      (valid : IsValid wal q)
      → (drains rounds wal q w v valid).left
        ≡ (drain_wal_lem codec collector rounds wal q w valid).left
  unfolding drains
  left-drains rounds wal q w v valid = left-settles codec collector boot q _ _ wal _ w _ _ _ _ _

  -- A direct export, which nothing waits before.
  pub directly :
      (request : Request) (wal : Wal) (w w1 : World)
      → codec.decode (codec.encode request) ≡ some request
      → export_with_retry collector request w ≡ (true, w1)
      → IsDurable wal
      → IsValid wal []
      → Conserved codec collector boot [] (codec.encode request ∷ []) wal w wal w1
  unfolding record_bytes
  directly request wal w w1 decodes sent v valid =
      let p = codec.encode request in
      record {
        gone = p ∷ [];
        left = [];
        split = refl;
        sent = p ∷ [];
        dropped = [];
        merge = was_sent p over;
        exports = delivered p request w w1 w1 [] decodes sent (idle w1);
        durable = v;
        valid = valid;
        same_max = refl;
        active = omega arith;
        spared = inl (refl, omega arith);
      }

  pub left-directly :
      (request : Request) (wal : Wal) (w w1 : World)
      (d : codec.decode (codec.encode request) ≡ some request)
      (e : export_with_retry collector request w ≡ (true, w1)) (v : IsDurable wal)
      (valid : IsValid wal [])
      → (directly request wal w w1 d e v valid).left ≡ []
  unfolding directly
  left-directly request wal w w1 d e v valid = refl

  -- An export that failed.
  fails :
      (request : Request) (wal : Wal) (q : List Bytes) (w w1 : World)
      → export_with_retry collector request w ≡ (false, w1)
      → IsDurable wal
      → IsValid wal q
      → Conserved codec collector boot q [] wal w wal w1
  fails request wal q w w1 failed v valid =
      settles codec collector boot q [] q wal wal w w1 (Settled-refl wal v) refl valid
        (attempted request w w1 w1 [] failed (idle w1))

  -- A tick.
  pub export_tick-Conserved :
      (request : Request) (wal : Wal) (q : List Bytes) (w : World)
      → codec.decode (codec.encode request) ≡ some request
      → IsDurable wal
      → IsValid wal q
      → HasRoom (codec.encode request) wal
      → Conserved codec collector boot q
          (codec.encode request ∷ [])
          wal
          w
          (export_tick codec collector request wal w).1
          (export_tick codec collector request wal w).2
  unfolding export_tick pending
  export_tick-Conserved request wal q w decodes v valid room =
      let p = codec.encode request in
      let wal1 = (append p wal).1 in
      let a = append-HasRoom wal q p valid room in
      let r = export_with_retry collector request w in
      elim (Bool-cases (ltb 0 (pending wal))) [
        | inl some_pending ↦
            let c = appends codec collector boot q p wal w v valid room in
            let d = drains max_wal_drain_per_tick wal1 c.left w c.durable c.valid in
            rw some_pending (
              rw (append_then, a.succeeds)
                (Conserved-then codec collector boot q (p ∷ []) [] wal wal1 _ w w _ c d))
        | inr nothing_pending ↦ elim (Bool-cases r.0) [
          | inl sent ↦
              let nil : q ≡ [] =
                empty_queue wal.disk.files wal.records q valid.reads
                  (no_records wal.records (ltb→le 0 (pending wal) nothing_pending)) in
              rw (nothing_pending, sent, nil)
                (directly request wal w r.1 decodes (ap (λ b. (b, r.1)) sent) v (rw nil at valid))
          | inr failed ↦
              let c = fails request wal q w r.1 (ap (λ b. (b, r.1)) failed) v valid in
              let d = appends codec collector boot c.left p wal r.1 v c.valid room in
              rw (nothing_pending, failed)
                (rw (append_then, a.succeeds)
                  (Conserved-then codec collector boot q [] (p ∷ []) wal wal wal1 w r.1 r.1 c d))
        ]
      ]
