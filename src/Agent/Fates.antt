-- ===== src/Agent/Fates.antt =====
-- What becomes of payloads: the exports that a stretch of time saw, and a list that is told apart
-- into what was exported and what the cap dropped.
use cross_xagent.Base.{
  ℕ, ◌+◌, ◌≡◌, refl, ap, true, false, some, List, [], ◌∷◌, ◌++◌, arith, Bytes, length,
}
use cross_xagent.Wal.Record.{header_bytes}
use cross_xagent.Agent.Retry.{Collector, export_with_retry}
use cross_xagent.Agent.Exporter.{Codec, Outcome, done, not_decoded, not_exported, wal_failed}
use cross_xagent.Agent.Draining.{Sends, Stopped}

-- The third list is the first two, each in its order.
pub data Merge : List Bytes → List Bytes → List Bytes → Type 0 where
  over : Merge [] [] []
  was_sent :
      {sent dropped gone : List Bytes} (p : Bytes)
      → Merge sent dropped gone
      → Merge (p ∷ sent) dropped (p ∷ gone)
  was_dropped :
      {sent dropped gone : List Bytes} (p : Bytes)
      → Merge sent dropped gone
      → Merge sent (p ∷ dropped) (p ∷ gone)

pub Merge-append :
    {s d g s' d' g' : List Bytes}
    → Merge s d g
    → Merge s' d' g'
    → Merge (s ++ s') (d ++ d') (g ++ g')
Merge-append over n = n
Merge-append (was_sent p m) n = was_sent p (Merge-append m n)
Merge-append (was_dropped p m) n = was_dropped p (Merge-append m n)

pub Merge-sent : (l : List Bytes) → Merge l [] l
Merge-sent [] = over
Merge-sent (p ∷ l) = was_sent p (Merge-sent l)

pub Merge-dropped : (l : List Bytes) → Merge [] l l
Merge-dropped [] = over
Merge-dropped (p ∷ l) = was_dropped p (Merge-dropped l)

pub Merge-all :
    {sent dropped gone : List Bytes} → Merge sent dropped gone → dropped ≡ [] → sent ≡ gone
Merge-all over e = refl
Merge-all (was_sent p m) e = ap (λ l. p ∷ l) (Merge-all m e)
Merge-all (was_dropped p m) e = absurd (cc e)

-- The bytes that the records of these payloads take.
unfoldable pub record_bytes : List Bytes → ℕ
record_bytes [] = 0
record_bytes (p ∷ ps) = header_bytes + length p + record_bytes ps

pub record_bytes-append :
    (ps qs : List Bytes) → record_bytes (ps ++ qs) ≡ record_bytes ps + record_bytes qs
unfolding record_bytes
record_bytes-append [] qs = omega arith
record_bytes-append (p ∷ ps) qs = omega (arith, record_bytes-append ps qs)

module _ {Request World : Type 0} (codec : Codec Request) (collector : Collector Request World)
    (boot : World → World) where
  -- The exports between two states of the world: these payloads were accepted, in this order, and
  -- some attempts and starts lie between.
  pub data Exports : World → List Bytes → World → Type 0 where
    idle : (w : World) → Exports w [] w
    delivered :
        (p : Bytes) (request : Request) (w w1 w2 : World) (ps : List Bytes)
        → codec.decode p ≡ some request
        → export_with_retry collector request w ≡ (true, w1)
        → Exports w1 ps w2
        → Exports w (p ∷ ps) w2
    attempted :
        (request : Request) (w w1 w2 : World) (ps : List Bytes)
        → export_with_retry collector request w ≡ (false, w1)
        → Exports w1 ps w2
        → Exports w ps w2
    started : (w w2 : World) (ps : List Bytes) → Exports (boot w) ps w2 → Exports w ps w2

  pub Exports-append :
      {w w1 w2 : World} {ps qs : List Bytes}
      → Exports w ps w1
      → Exports w1 qs w2
      → Exports w (ps ++ qs) w2
  Exports-append (idle w) f = f
  Exports-append (delivered p request w w1 w2 ps d e rest) f =
      delivered p request w w1 _ _ d e (Exports-append rest f)
  Exports-append (attempted request w w1 w2 ps e rest) f =
      attempted request w w1 _ _ e (Exports-append rest f)
  Exports-append (started w w2 ps rest) f = started w _ _ (Exports-append rest f)

  pub Exports-of_Sends :
      (ps : List Bytes) (w w' : World) → Sends codec collector w ps w' → Exports w ps w'
  Exports-of_Sends [] w w' h = rw h (idle w')
  Exports-of_Sends (p ∷ ps) w w' (request, w1, decoded, exported, rest) =
      delivered p request w w1 w' ps decoded exported (Exports-of_Sends ps w1 w' rest)

  -- Why a drain ended is no export of a payload.
  pub Exports-of_Stopped :
      (o : Outcome) (left : List Bytes) (rounds : ℕ) (w w' : World)
      → Stopped codec collector o left rounds w w'
      → Exports w [] w'
  Exports-of_Stopped done left rounds w w' s = rw s.0 (idle w')
  Exports-of_Stopped not_decoded [] rounds w w' s = absurd s
  Exports-of_Stopped not_decoded (p ∷ left) rounds w w' s = rw s.0 (idle w')
  Exports-of_Stopped not_exported [] rounds w w' s = absurd s
  Exports-of_Stopped not_exported (p ∷ left) rounds w w' (request, decoded, exported) =
      attempted request w w' w' [] exported (idle w')
  Exports-of_Stopped (wal_failed e) left rounds w w' s = absurd s
