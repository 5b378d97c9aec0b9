-- ===== src/Agent/Emptying.antt =====
-- A collector that accepts again empties the queue.
use cross_xagent.Base.{
  ℕ, zero, suc, ◌*◌, ◌≤◌, ◌≡◌, ◌≢◌, refl, sym, ap, ◌∙◌, true, none, List, [], ◌∷◌, ◌++◌, arith,
  Bytes, length, length-append, inl, inr, ◌⊎◌,
}
use cross_xagent.Wal.Ops.{Wal}
use cross_xagent.Wal.Queue.{IsValid}
use cross_xagent.Agent.Retry.{Collector, export_with_retry}
use cross_xagent.Agent.Exporter.{
  Codec, Outcome, done, not_decoded, not_exported, wal_failed, drain_wal, max_wal_drain_per_tick,
}
use cross_xagent.Agent.Draining.{Sends, Stopped, drain_wal_lem}

module _ {Request World : Type 0} (codec : Codec Request)
    (collector : Collector Request World) where
  -- The drains of several ticks.
  abbrev drain_ticks : ℕ → Wal → World → Wal × World
  drain_ticks zero wal w = (wal, w)
  drain_ticks (suc n) wal w =
      let r = drain_wal codec collector max_wal_drain_per_tick wal w in drain_ticks n r.1 r.2

  -- Every payload decodes.
  abbrev pub Decodable : List Bytes → Type 0
  Decodable [] = Unit
  Decodable (p ∷ ps) = (codec.decode p ≢ none) × Decodable ps

  pub Decodable-later : (sent left : List Bytes) → Decodable (sent ++ left) → Decodable left
  Decodable-later [] left d = d
  Decodable-later (p ∷ sent) left d = Decodable-later sent left d.1

  Sends-append :
      (w w1 w2 : World) (ps qs : List Bytes)
      → Sends codec collector w ps w1
      → Sends codec collector w1 qs w2
      → Sends codec collector w (ps ++ qs) w2
  Sends-append w w1 w2 [] qs h k = rw h k
  Sends-append w w1 w2 (p ∷ ps) qs (request, w', decoded, exported, rest) k =
      (request, w', decoded, exported, Sends-append w' w1 w2 ps qs rest k)

  module _
      (accepts : (request : Request) (w : World)
        → (export_with_retry collector request w).0 ≡ true) where
    -- A drain that nothing stops ends with the queue or with its rounds.
    pub unstopped :
        (o : Outcome) (left : List Bytes) (unused : ℕ) (w w' : World)
        → Decodable left
        → Stopped codec collector o left unused w w'
        → (w ≡ w') × ((left ≡ []) ⊎ (unused ≡ 0))
    unstopped done left unused w w' d s = s
    unstopped not_decoded [] unused w w' d s = absurd s
    unstopped not_decoded (p ∷ left) unused w w' d s = absurd (d.0 s.1)
    unstopped not_exported [] unused w w' d s = absurd s
    unstopped not_exported (p ∷ left) unused w w' d (request, decoded, exported) =
        absurd (cc (sym (accepts request w) ∙ ap (λ r. r.0) exported))
    unstopped (wal_failed e) left unused w w' d s = absurd s

    -- A collector that accepts everything empties a well-formed log of payloads that decode, within
    -- as many ticks as it takes at 32 payloads for each, and gets them all in their order.
    drain_ticks-empties :
        (n : ℕ) (wal : Wal) (q : List Bytes) (w : World)
        → IsValid wal q
        → Decodable q
        → length q ≤ n * max_wal_drain_per_tick
        → IsValid (drain_ticks n wal w).0 [] × Sends codec collector w q (drain_ticks n wal w).1
    drain_ticks-empties zero wal [] w v d few = (v, refl)
    drain_ticks-empties zero wal (p ∷ q) w v d few = absurd (omega arith)
    drain_ticks-empties (suc n) wal q w v d few =
        let r = drain_wal codec collector max_wal_drain_per_tick wal w in
        let e = drain_wal_lem codec collector max_wal_drain_per_tick wal q w v in
        let later = Decodable-later e.sent e.left (rw (← e.split) d) in
        let (reached, ended) = unstopped r.0 e.left e.unused e.reached r.2 later e.stopped in
        let rest : length e.left ≤ n * max_wal_drain_per_tick = elim ended [
          | inl nil ↦ rw nil (omega arith)
          | inr spent ↦ omega (arith, ap length e.split, length-append e.sent e.left, e.counted)
        ] in
        let (v', s) = drain_ticks-empties n r.1 e.left r.2 e.valid later rest in
        (v', rw e.split (Sends-append w r.2 _ e.sent e.left (rw reached at e.sends) s))
