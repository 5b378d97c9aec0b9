-- ===== src/Agent/Draining.antt =====
-- The exporters over the queue of the write-ahead log: payloads leave it in order, and a batch that
-- is accepted was exported or is in the queue.
use cross_xagent.Base.{
  ℕ, zero, suc, ◌+◌, ◌≡◌, refl, sym, ap, ◌∙◌, Bool, true, false, Option, none, some, List, [], ◌∷◌,
  ◌++◌, arith, Bytes, length, ==-refl, Bool-cases, Option-cases, inl, inr, ◌⊎◌,
}
use mathlib.Core.Path.{subst}
use cross_xagent.Wal.Disk.{Result, ok, err}
use cross_xagent.Wal.Disk.{Files}
use cross_xagent.Wal.Record.{crc32, RecordMeta, WalEntry}
use cross_xagent.Wal.Ops.{Wal, next, next_loop, ack, is_head}
use cross_xagent.Wal.Reads.{Reads}
use cross_xagent.Wal.Queue.{IsValid, payload_of, next_lem, ack_lem}
use cross_xagent.Agent.Retry.{Collector, export_with_retry}
use cross_xagent.Agent.Exporter.{
  Codec, Outcome, done, not_decoded, not_exported, wal_failed, drain_wal,
}

-- What `next` returns on a log whose queue has a head.
record Head (p : Bytes) (w : Wal) : Type 0 where
  entry : WalEntry
  found : (next w).0 ≡ ok (some entry)
  same : entry.payload ≡ p
  first : is_head entry w.records ≡ true

next_loop-first :
    (fs : Files) (m : RecordMeta) (ms : List RecordMeta) (p : Bytes) (q : List Bytes)
    → Reads fs (m ∷ ms) (p ∷ q)
    → next_loop fs (m ∷ ms)
      ≡ (ok (some (record { segment = m.segment; offset = m.offset; payload = p })), m ∷ ms)
unfolding next_loop
next_loop-first fs m ms p q h = rw (h.0, next_loop, ==-refl (crc32 p)) refl

next-Head :
    (w : Wal) (ms : List RecordMeta) (p : Bytes) (q : List Bytes)
    → w.records ≡ ms
    → Reads w.disk.files ms (p ∷ q)
    → Head p w
unfolding next
next-Head w [] p q e h = absurd h
next-Head w (m ∷ ms) p q e h =
    let entry : WalEntry = record { segment = m.segment; offset = m.offset; payload = p } in
    record {
      entry = entry;
      found =
          ap (λ l. (next_loop w.disk.files l).0) e
          ∙ ap (λ r. r.0) (next_loop-first w.disk.files m ms p q h);
      same = refl;
      first = rw (e, ==-refl m.segment, ==-refl m.offset) refl;
    }

none_left : (r : Result (Option WalEntry)) → payload_of r ≡ ok none → r ≡ ok none
none_left (err e) h = cc
none_left (ok none) h = refl
none_left (ok (some entry)) h = cc

module _ {Request World : Type 0} (codec : Codec Request)
    (collector : Collector Request World) where
  -- These payloads were exported one after another.
  abbrev pub Sends : World → List Bytes → World → Type 0
  Sends w [] w' = w ≡ w'
  Sends w (p ∷ ps) w' =
      (request : Request) × (w1 : World) × (codec.decode p ≡ some request)
      × (export_with_retry collector request w ≡ (true, w1))
      × Sends w1 ps w'

  -- Why a drain ended, with what is left of the queue and of the rounds.
  abbrev pub Stopped : Outcome → List Bytes → ℕ → World → World → Type 0
  Stopped done left rounds w w' = (w ≡ w') × ((left ≡ []) ⊎ (rounds ≡ 0))
  Stopped not_decoded [] rounds w w' = ⊥
  Stopped not_decoded (p ∷ left) rounds w w' = (w ≡ w') × (codec.decode p ≡ none)
  Stopped not_exported [] rounds w w' = ⊥
  Stopped not_exported (p ∷ left) rounds w w' =
      (request : Request) × (codec.decode p ≡ some request)
      × (export_with_retry collector request w ≡ (false, w'))
  Stopped (wal_failed e) left rounds w w' = ⊥

  -- What a drain of the queue `q` leaves.
  pub record Drained (rounds : ℕ) (q : List Bytes) (w : World) (r : Outcome × Wal × World)
      : Type 0 where
    pub sent : List Bytes
    pub left : List Bytes
    pub split : q ≡ sent ++ left
    pub valid : IsValid r.1 left
    pub unused : ℕ
    pub counted : unused + length sent ≡ rounds
    pub reached : World
    pub sends : Sends w sent reached
    pub stopped : Stopped r.0 left unused reached r.2

  nothing_sent :
      (rounds : ℕ) (q : List Bytes) (wal : Wal) (w w' : World) (o : Outcome)
      → IsValid wal q
      → Stopped o q rounds w w'
      → Drained rounds q w (o, wal, w')
  nothing_sent rounds q wal w w' o v s = record {
    sent = [];
    left = q;
    split = refl;
    valid = v;
    unused = rounds;
    counted = omega arith;
    reached = w;
    sends = refl;
    stopped = s;
  }

  one_more :
      (rounds : ℕ) (p : Bytes) (q : List Bytes) (request : Request) (w w1 : World)
      (r : Outcome × Wal × World)
      → codec.decode p ≡ some request
      → export_with_retry collector request w ≡ (true, w1)
      → Drained rounds q w1 r
      → Drained (suc rounds) (p ∷ q) w r
  one_more rounds p q request w w1 r decoded exported d = record {
    sent = p ∷ d.sent;
    left = d.left;
    split = ap (λ l. p ∷ l) d.split;
    valid = d.valid;
    unused = d.unused;
    counted = omega (arith, d.counted);
    reached = d.reached;
    sends = (request, w1, decoded, exported, d.sends);
    stopped = d.stopped;
  }

  -- A drain of a well-formed log exports payloads from the front of the queue, in order and at most
  -- as many as there are rounds, and leaves a well-formed log of the others. It ends when the queue
  -- or the rounds do, or at a head that cannot be decoded or exported, which stays.
  pub drain_wal_lem :
      (rounds : ℕ) (wal : Wal) (q : List Bytes) (w : World)
      → IsValid wal q
      → Drained rounds q w (drain_wal codec collector rounds wal w)
  unfolding drain_wal
  drain_wal_lem zero wal q w v = nothing_sent zero q wal w w done v (refl, inr refl)
  drain_wal_lem (suc rounds) wal [] w v =
      let (same, head) = next_lem wal [] v in
      rw (drain_wal, none_left (next wal).0 head, same)
        (nothing_sent (suc rounds) [] wal w w done v (refl, inl refl))
  drain_wal_lem (suc rounds) wal (p ∷ q) w v =
      let h = next-Head wal wal.records p q refl v.reads in
      let (same, _) = next_lem wal (p ∷ q) v in
      let wal1 = (next wal).1 in
      let v1 = subst (λ u. IsValid u (p ∷ q)) (sym same) v in
      let (acked, v') = ack_lem wal1 p q h.entry v1 (rw same h.first) in
      let r = export_with_retry collector in
      rw (drain_wal, h.found, h.same)
        (elim (Option-cases (codec.decode p)) [
          | inl none_decoded ↦
              rw none_decoded
                (nothing_sent (suc rounds) (p ∷ q) wal1 w w not_decoded v1 (refl, none_decoded))
          | inr (request, decoded) ↦
              let exported : (b : Bool) → (r request w).0 ≡ b → r request w ≡ (b, (r request w).1) =
                λ b e. ap (λ c. (c, (r request w).1)) e in
              rw decoded (elim (Bool-cases (r request w).0) [
                | inl e ↦
                    rw (e, acked)
                      (one_more rounds p q request w (r request w).1 _ decoded (exported true e)
                        (drain_wal_lem rounds (ack h.entry wal1).1 q (r request w).1 v'))
                | inr e ↦ rw e (
                    nothing_sent (suc rounds) (p ∷ q) wal1 w (r request w).1 not_exported v1
                      (request, decoded, exported false e))
              ])
        ])
