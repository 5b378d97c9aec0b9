-- ===== src/Agent/Lives.antt =====
-- `run_loop` over starts and stops of the process: every payload that was submitted was exported, is
-- in the log, or was dropped by the cap.
use cross_xagent.Base.{
  ℕ, ◌+◌, ◌≤◌, ◌<◌, ◌≡◌, refl, ◌∙◌, some, List, [], ◌∷◌, ◌++◌, map, arith, Bytes, u32_max, u64_max,
  length, length-append,
}
use cross_xagent.Wal.Disk.{Disk}
use cross_xagent.Wal.Record.{header_bytes, segment_max_bytes}
use cross_xagent.Wal.Ops.{Wal}
use cross_xagent.Wal.Queue.{IsValid}
use cross_xagent.Wal.Durable.{interrupted, open_wal-interrupted}
use cross_xagent.Wal.Delivery.{HasRoom}
use cross_xagent.Wal.Reopening.{IsDurable, IsDurable-HasRoom}
use cross_xagent.Wal.Settled.{Settled-refl}
use cross_xagent.Agent.Retry.{Collector}
use cross_xagent.Agent.Exporter.{Codec, export_tick}
use cross_xagent.Agent.Running.{Life, open_exporter, run_ticks, run_loop, run_lives}
use cross_xagent.Agent.Fates.{idle, started}
use cross_xagent.Agent.Conserving.{Conserved, Conserved-then, settles}
use cross_xagent.Agent.Ticking.{export_tick-Conserved}

-- A log that was stopped in the middle of a write is the one that the next start opens.
pub open_exporter-interrupted :
    (n max_bytes : ℕ) (payload : Bytes) (wal : Wal)
    → IsDurable wal
    → wal.max_bytes ≡ max_bytes
    → length payload ≤ u32_max
    → n < header_bytes + length payload
    → open_exporter (interrupted n payload wal) max_bytes ≡ some wal
unfolding open_exporter
open_exporter-interrupted n max_bytes payload wal v same short less =
    rw (← same, open_wal-interrupted n payload wal v.stored v.within short less) refl

-- Each payload fits the header of a record, and its record the cap.
abbrev pub Fitting : ℕ → List Bytes → Type 0
Fitting max_bytes [] = Unit
Fitting max_bytes (p ∷ ps) =
    (length p ≤ u32_max) × (header_bytes + length p ≤ max_bytes) × Fitting max_bytes ps

pub Fitting-split :
    (max_bytes : ℕ) (ps qs : List Bytes)
    → Fitting max_bytes (ps ++ qs)
    → Fitting max_bytes ps × Fitting max_bytes qs
Fitting-split max_bytes [] qs h = (tt, h)
Fitting-split max_bytes (p ∷ ps) qs (short, fits, rest) =
    let (front, back) = Fitting-split max_bytes ps qs rest in ((short, fits, front), back)

module _ {Request : Type 0} (codec : Codec Request) where
  -- The payloads of the ticks.
  abbrev pub payloads : List Request → List Bytes
  payloads = map codec.encode

  abbrev pub submitted : List (Life Request) → List Bytes
  submitted [] = []
  submitted (life ∷ lives) = payloads life.requests ++ submitted lives

-- Each stop is before the last byte of a record.
abbrev pub Stops : {Request : Type 0} → List (Life Request) → Type 0
Stops [] = Unit
Stops (life ∷ lives) =
    (length life.payload ≤ u32_max)
    × (life.written < header_bytes + length life.payload)
    × Stops lives

module _ {Request World : Type 0} (codec : Codec Request) (collector : Collector Request World)
    (boot : World → World) (max_bytes : ℕ) where
  -- What starts and stops leave: the directory can be opened again, and nothing was lost.
  pub record Survived (lives : List (Life Request)) (wal : Wal) (q : List Bytes) (d : Disk)
      (w : World) : Type 0 where
    pub disk : Disk
    pub world : World
    pub runs : run_lives codec collector boot max_bytes lives d w ≡ some (disk, world)
    pub wal' : Wal
    pub opens : open_exporter disk max_bytes ≡ some wal'
    pub conserved : Conserved codec collector boot q (submitted codec lives) wal w wal' world

  -- A start that opens the log.
  run_lives-cons :
      (life : Life Request) (lives : List (Life Request)) (wal : Wal) (d : Disk) (w : World)
      → open_exporter d max_bytes ≡ some wal
      → run_lives codec collector boot max_bytes (life ∷ lives) d w
        ≡ run_lives codec collector boot max_bytes lives
            (interrupted life.written life.payload
              (run_ticks codec collector boot life.requests wal (boot w)).0)
            (run_ticks codec collector boot life.requests wal (boot w)).1
  unfolding run_lives run_loop
  run_lives-cons life lives wal d w opens = rw (run_lives, run_loop, opens) refl

  module _ (decodes : (request : Request) → codec.decode (codec.encode request) ≡ some request)
      (big : segment_max_bytes ≤ max_bytes) (small : max_bytes + max_bytes ≤ u64_max) where
    room_for :
        (p : Bytes) (wal : Wal)
        → IsDurable wal
        → wal.max_bytes ≡ max_bytes
        → length p ≤ u32_max
        → header_bytes + length p ≤ max_bytes
        → wal.active_segment < u64_max
        → HasRoom p wal
    room_for p wal v same short fits sequences =
        IsDurable-HasRoom wal p v (omega (arith, same)) (omega (arith, same)) short
          (omega (arith, same)) sequences

    run_ticks-Conserved :
        (requests : List Request) (wal : Wal) (q : List Bytes) (w : World)
        → IsDurable wal
        → IsValid wal q
        → wal.max_bytes ≡ max_bytes
        → Fitting max_bytes (payloads codec requests)
        → wal.active_segment + length (payloads codec requests) ≤ u64_max
        → Conserved codec collector boot q
            (payloads codec requests)
            wal
            w
            (run_ticks codec collector boot requests wal w).0
            (run_ticks codec collector boot requests wal w).1
    unfolding run_ticks
    run_ticks-Conserved [] wal q w v valid same fitting numbers =
        settles codec collector boot q [] q wal wal w w (Settled-refl wal v) refl valid (idle w)
    run_ticks-Conserved (request ∷ requests) wal q w v valid same (short, fits, fitting) numbers =
        let p = codec.encode request in
        let room = room_for p wal v same short fits (omega arith) in
        let r = export_tick codec collector request wal w in
        let c =
          export_tick-Conserved codec collector boot request wal q w (decodes request) v valid
            room in
        let d =
          run_ticks-Conserved requests r.1 c.left r.2 c.durable c.valid (c.same_max ∙ same) fitting
            (omega (arith, c.active)) in
        Conserved-then codec collector boot q (p ∷ []) (payloads codec requests) wal r.1 _ w r.2 _ c
          d

    -- A start: the world with a new transport.
    boots :
        (wal : Wal) (q : List Bytes) (w : World)
        → IsDurable wal
        → IsValid wal q
        → Conserved codec collector boot q [] wal w wal (boot w)
    boots wal q w v valid =
        settles codec collector boot q [] q wal wal w (boot w) (Settled-refl wal v) refl valid
          (started w (boot w) [] (idle (boot w)))

    -- From a directory that opens as a log that its files determine, with a cap that holds a full
    -- segment and twice fits a u64, over any starts of the process, each with its ticks and then a
    -- stop before the last byte of a write, whose payloads fit the header of a record and the cap and
    -- are no more than the sequence numbers left, where what is encoded decodes: every start opens the
    -- log, and so does the next one. The queue and the submitted payloads are in their order those
    -- that are gone and those of the new log's queue; each that is gone was exported, in order, or
    -- dropped, and none was dropped where the files and all the new records fit the cap.
    pub run_lives-Survived :
        (lives : List (Life Request)) (wal : Wal) (q : List Bytes) (d : Disk) (w : World)
        → open_exporter d max_bytes ≡ some wal
        → wal.max_bytes ≡ max_bytes
        → IsDurable wal
        → IsValid wal q
        → Fitting max_bytes (submitted codec lives)
        → Stops lives
        → wal.active_segment + length (submitted codec lives) ≤ u64_max
        → Survived lives wal q d w
    unfolding run_lives run_loop
    run_lives-Survived [] wal q d w opens same v valid fitting stops numbers = record {
      disk = d;
      world = w;
      runs = refl;
      wal' = wal;
      opens = opens;
      conserved =
          settles codec collector boot q [] q wal wal w w (Settled-refl wal v) refl valid (idle w);
    }
    run_lives-Survived (life ∷ lives) wal q d w opens same v valid fitting (short, less, stops)
          numbers =
        let ps = payloads codec life.requests in
        let (front, back) = Fitting-split max_bytes ps (submitted codec lives) fitting in
        let sum = length-append ps (submitted codec lives) in
        let r = run_ticks codec collector boot life.requests wal (boot w) in
        let b = boots wal q w v valid in
        let t =
          run_ticks-Conserved life.requests wal b.left (boot w) v b.valid same front
            (omega (arith, sum, numbers)) in
        let c : Conserved codec collector boot q ps wal w r.0 r.1 =
          Conserved-then codec collector boot q [] ps wal wal r.0 w (boot w) r.1 b t in
        let d' = interrupted life.written life.payload r.0 in
        let s =
          run_lives-Survived lives r.0 c.left d' r.1
            (open_exporter-interrupted life.written max_bytes life.payload r.0 c.durable
              (c.same_max ∙ same) short less)
            (c.same_max ∙ same) c.durable c.valid back stops
            (omega (arith, sum, numbers, c.active)) in
        record {
          disk = s.disk;
          world = s.world;
          runs = run_lives-cons life lives wal d w opens ∙ s.runs;
          wal' = s.wal';
          opens = s.opens;
          conserved =
              Conserved-then codec collector boot q ps (submitted codec lives) wal r.0 s.wal' w r.1
                s.world c s.conserved;
        }
