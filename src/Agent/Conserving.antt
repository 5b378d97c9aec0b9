-- ===== src/Agent/Conserving.antt =====
-- Nothing that `run_loop` submits is lost: over ticks, failed exports, drains, stops and starts, every
-- payload was exported, is in the log, or was dropped by the cap.
use cross_xagent.Base.{
  ◌+◌, ◌≤◌, ◌<◌, ◌≡◌, refl, sym, ap, ◌∙◌, ◌⊎◌, inl, inr, List, [], ◌∷◌, ◌++◌, arith, Bytes, length,
  length-append,
}
use mathlib.Core.List.{append_assoc, append-nil}
use cross_xagent.Wal.Ops.{Wal, append}
use cross_xagent.Wal.Files.{file_bytes}
use cross_xagent.Wal.Queue.{IsValid}
use cross_xagent.Wal.Delivery.{HasRoom, Appended, append-HasRoom}
use cross_xagent.Wal.Reopening.{IsDurable, append-IsDurable}
use cross_xagent.Wal.Settled.{Settled}
use cross_xagent.Agent.Retry.{Collector}
use cross_xagent.Agent.Exporter.{Codec}
use cross_xagent.Agent.Fates.{
  Merge, Merge-append, Merge-sent, Merge-dropped, record_bytes, record_bytes-append, Exports, idle,
  Exports-append,
}

module _ {Request World : Type 0} (codec : Codec Request) (collector : Collector Request World)
    (boot : World → World) where
  -- From the queue `q` of `wal`, with the payloads `ps` submitted since: they stand in their order, a
  -- front part is gone, each of it exported or dropped, and the rest is what the log holds. Nothing
  -- is dropped where the files and all of the records fit the cap.
  pub record Conserved (q ps : List Bytes) (wal : Wal) (w : World) (wal' : Wal) (w' : World)
      : Type 0 where
    pub gone : List Bytes
    pub left : List Bytes
    pub split : q ++ ps ≡ gone ++ left
    pub sent : List Bytes
    pub dropped : List Bytes
    pub merge : Merge sent dropped gone
    pub exports : Exports codec collector boot w sent w'
    pub durable : IsDurable wal'
    pub valid : IsValid wal' left
    pub same_max : wal'.max_bytes ≡ wal.max_bytes
    pub active : wal'.active_segment ≤ wal.active_segment + length ps
    pub spared :
        ((dropped ≡ [])
          × (file_bytes wal'.disk.files ≤ file_bytes wal.disk.files + record_bytes ps))
        ⊎ (wal.max_bytes < file_bytes wal.disk.files + record_bytes ps)

  split-then :
      (q ps rs g l g' l' : List Bytes)
      → q ++ ps ≡ g ++ l
      → l ++ rs ≡ g' ++ l'
      → q ++ (ps ++ rs) ≡ (g ++ g') ++ l'
  split-then q ps rs g l g' l' e f =
      sym (append_assoc q ps rs)
      ∙ ap (λ x. x ++ rs) e
      ∙ append_assoc g l rs
      ∙ ap (λ x. g ++ x) f
      ∙ sym (append_assoc g g' l')

  -- One stretch after another.
  pub Conserved-then :
      (q ps rs : List Bytes) (wal wal1 wal2 : Wal) (w w1 w2 : World)
      (c : Conserved q ps wal w wal1 w1)
      → Conserved c.left rs wal1 w1 wal2 w2
      → Conserved q (ps ++ rs) wal w wal2 w2
  Conserved-then q ps rs wal wal1 wal2 w w1 w2 c d = record {
    gone = c.gone ++ d.gone;
    left = d.left;
    split = split-then q ps rs c.gone c.left d.gone d.left c.split d.split;
    sent = c.sent ++ d.sent;
    dropped = c.dropped ++ d.dropped;
    merge = Merge-append c.merge d.merge;
    exports = Exports-append codec collector boot c.exports d.exports;
    durable = d.durable;
    valid = d.valid;
    same_max = d.same_max ∙ c.same_max;
    active = omega (arith, c.active, d.active, length-append ps rs);
    spared = elim c.spared [
      | inr over_cap ↦ inr (omega (arith, over_cap, record_bytes-append ps rs))
      | inl (none_yet, bytes) ↦ elim d.spared [
        | inr over_cap ↦ inr (omega (arith, over_cap, bytes, c.same_max, record_bytes-append ps rs))
        | inl (none_more, bytes') ↦ inl (
          ap (λ x. x ++ d.dropped) none_yet ∙ none_more,
          omega (arith, bytes, bytes', record_bytes-append ps rs),
        )
      ]
    ];
  }

  pub left-Conserved-then :
      (q ps rs : List Bytes) (wal wal1 wal2 : Wal) (w w1 w2 : World)
      (c : Conserved q ps wal w wal1 w1) (d : Conserved c.left rs wal1 w1 wal2 w2)
      → (Conserved-then q ps rs wal wal1 wal2 w w1 w2 c d).left ≡ d.left
  unfolding Conserved-then
  left-Conserved-then q ps rs wal wal1 wal2 w w1 w2 c d = refl

  -- A log that only settles, while these payloads of its queue are exported.
  pub settles :
      (q sent left : List Bytes) (wal wal' : Wal) (w w' : World)
      → Settled wal wal'
      → q ≡ sent ++ left
      → IsValid wal' left
      → Exports codec collector boot w sent w'
      → Conserved q [] wal w wal' w'
  unfolding record_bytes
  settles q sent left wal wal' w w' s split v e = record {
    gone = sent;
    left = left;
    split = append-nil q ∙ split;
    sent = sent;
    dropped = [];
    merge = Merge-sent sent;
    exports = e;
    durable = s.durable;
    valid = v;
    same_max = s.same_max;
    active = omega (arith, s.same_active);
    spared = inl (refl, omega (arith, s.smaller));
  }

  pub left-settles :
      (q sent left : List Bytes) (wal wal' : Wal) (w w' : World) (s : Settled wal wal')
      (split : q ≡ sent ++ left) (v : IsValid wal' left)
      (e : Exports codec collector boot w sent w')
      → (settles q sent left wal wal' w w' s split v e).left ≡ left
  unfolding settles
  left-settles q sent left wal wal' w w' s split v e = refl

  -- An append.
  pub appends :
      (q : List Bytes) (p : Bytes) (wal : Wal) (w : World)
      → IsDurable wal
      → IsValid wal q
      → HasRoom p wal
      → Conserved q (p ∷ []) wal w (append p wal).1 w
  unfolding record_bytes
  appends q p wal w v valid room =
      let a : Appended wal q p (append p wal) = append-HasRoom wal q p valid room in
      record {
        gone = a.dropped;
        left = a.older ++ (p ∷ []);
        split = ap (λ x. x ++ (p ∷ [])) a.split ∙ append_assoc a.dropped a.older (p ∷ []);
        sent = [];
        dropped = a.dropped;
        merge = Merge-dropped a.dropped;
        exports = idle w;
        durable = append-IsDurable wal p v room;
        valid = a.valid;
        same_max = a.same_max;
        active = omega (arith, a.active);
        spared = elim a.spared [
          | inl (nil, bytes) ↦ inl (nil, omega (arith, bytes))
          | inr over_cap ↦ inr (omega (arith, over_cap))
        ];
      }
