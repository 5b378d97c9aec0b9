-- ===== src/Agent/Logged.antt =====
-- Nothing that the logs loop submits is lost, and what it keeps of its sources is what was submitted.
use cross_xagent.Base.{
  ◌+◌, ◌≤◌, ◌≡◌, refl, ap, true, Option, some, List, [], ◌∷◌, ◌++◌, arith, Bytes, u64_max, length,
  length-append,
}
use mathlib.Core.List.{map-append}
use cross_xagent.Wal.Record.{segment_max_bytes}
use cross_xagent.Wal.Ops.{Wal}
use cross_xagent.Wal.Queue.{IsValid}
use cross_xagent.Wal.Reopening.{IsDurable, IsDurable-HasRoom}
use cross_xagent.Wal.Settled.{Settled-refl}
use cross_xagent.Agent.Retry.{Collector}
use cross_xagent.Agent.Exporter.{Codec}
use cross_xagent.Agent.Accepting.{export_request_lem}
use cross_xagent.Agent.Loop.{LoopEvent, LogSources}
use cross_xagent.Agent.Fates.{idle}
use cross_xagent.Agent.Conserving.{Conserved, Conserved-then, settles}
use cross_xagent.Agent.Ticking.{export_tick-Conserved}
use cross_xagent.Agent.Lives.{payloads, Fitting, Fitting-split}
use cross_xagent.Agent.Rounds.{over_exporter, run_rounds, run_rounds-agree}
use cross_xagent.Agent.Logging.{is_done, accept_all, export_records, export_request-export_tick}

payloads-concat :
    {Request : Type 0} (codec : Codec Request) (rs : List Request) (r : Request)
    → payloads codec (rs ++ (r ∷ [])) ≡ payloads codec rs ++ (codec.encode r ∷ [])
payloads-concat codec rs r = map-append codec.encode rs (r ∷ [])

module _ {Request World : Type 0} (codec : Codec Request) (collector : Collector Request World)
    (q : List Bytes) (wal : Wal) (w : World) where
  -- What the loop has submitted so far is conserved.
  abbrev Kept : Wal × World → List Request → Type 0
  Kept s rs = Conserved codec collector (λ v. v) q (payloads codec rs) wal w s.0 s.1

  -- What was submitted fits the log.
  abbrev pub Submittable : List Request → Type 0
  Submittable rs =
      Fitting wal.max_bytes (payloads codec rs)
      × (wal.active_segment + length (payloads codec rs) ≤ u64_max)

  Submittable-back :
      (r : Request) (rs : List Request) → Submittable (rs ++ (r ∷ [])) → Submittable rs
  Submittable-back r rs (fits, numbers) =
      let e = payloads-concat codec rs r in
      (
        (Fitting-split wal.max_bytes (payloads codec rs) (codec.encode r ∷ []) (rw e at fits)).0,
        omega
            (arith, numbers, ap length e, length-append (payloads codec rs) (codec.encode r ∷ [])),
      )

  -- The loop over its exporter comes to the sources of the loop over one that accepts everything,
  -- and what it submitted is conserved.
  pub record Logged (x : LogSources (Wal × World)) (y : LogSources (List Request)) : Type 0 where
    pub wal' : Wal
    pub world : World
    pub same_sources : x ≡ over_exporter y (wal', world)
    pub conserved :
        Conserved codec collector (λ v. v) q (payloads codec y.exporter) wal w wal' world

  module _ (decodes : (request : Request) → codec.decode (codec.encode request) ≡ some request)
      (big : segment_max_bytes ≤ wal.max_bytes)
      (small : wal.max_bytes + wal.max_bytes ≤ u64_max) where
    export_records-agree :
        (r : Request) (s : Wal × World) (rs : List Request)
        → Kept s rs
        → Submittable (rs ++ (r ∷ []))
        → ((export_records codec collector r s).0 ≡ true)
          × Kept (export_records codec collector r s).1 (rs ++ (r ∷ []))
    unfolding export_records
    export_records-agree r (wal1, w1) rs c (fits, numbers) =
        let p = codec.encode r in
        let ps = payloads codec rs in
        let e = payloads-concat codec rs r in
        let (short, fit, _) = (Fitting-split wal.max_bytes ps (p ∷ []) (rw e at fits)).1 in
        let room =
          IsDurable-HasRoom wal1 p c.durable (omega (arith, big, c.same_max))
            (omega (arith, small, c.same_max)) short (omega (arith, fit, c.same_max))
            (omega (arith, numbers, c.active, ap length e, length-append ps (p ∷ []))) in
        let served = (export_request_lem codec collector r wal1 c.left w1 c.valid room).0 in
        let (same_wal, same_w) = export_request-export_tick codec collector r wal1 w1 in
        let t =
          export_tick-Conserved codec collector (λ v. v) r wal1 c.left w1 (decodes r) c.durable
            c.valid room in
        let both = Conserved-then codec collector (λ v. v) q ps (p ∷ []) wal wal1 _ w w1 _ c t in
        (ap is_done served, rw (e, same_wal, same_w) both)

    module _ {Sample : Type 0} (parse : Bytes → Option Sample) (cursor_of : Bytes → Option Bytes)
        (single : Sample → Request) (batch : List Bytes → Request) where
      -- On a log that its files determine, with a cap that holds a full segment and twice fits a u64,
      -- over any rounds of the logs loop whose batches fit the header of a record and the cap, and are
      -- no more than the sequence numbers left, where what is encoded decodes: the exporter accepts
      -- every batch, so that the sources, their checkpoints and the cursor come out as if each had been
      -- delivered; and the queue and the batches are in their order those that are gone, each exported
      -- in order or dropped by the cap, and those of the queue that is left.
      pub run_rounds-Logged :
          (events : List LoopEvent) (sources : LogSources Unit)
          → IsDurable wal
          → IsValid wal q
          → Submittable
              (run_rounds parse cursor_of
                (λ s. accept_all (single s))
                (λ bs. accept_all (batch bs))
                events
                (over_exporter sources [])).exporter
          → Logged
              (run_rounds parse cursor_of
                (λ s. export_records codec collector (single s))
                (λ bs. export_records codec collector (batch bs))
                events
                (over_exporter sources (wal, w)))
              (run_rounds parse cursor_of
                (λ s. accept_all (single s))
                (λ bs. accept_all (batch bs))
                events
                (over_exporter sources []))
      run_rounds-Logged events sources v valid fits =
          let start : Kept (wal, w) [] =
            settles codec collector (λ x. x) q [] q wal wal w w (Settled-refl wal v) refl valid
              (idle w) in
          let ((wal', w'), same, c) =
            run_rounds-agree parse cursor_of (λ s. export_records codec collector (single s))
              (λ bs. export_records codec collector (batch bs)) (λ s. accept_all (single s))
              (λ bs. accept_all (batch bs)) Kept Submittable (λ s. Submittable-back (single s))
              (λ bs. Submittable-back (batch bs)) (λ s. export_records-agree (single s))
              (λ bs. export_records-agree (batch bs)) events (over_exporter sources []) (wal, w)
              start fits in
          record { wal' = wal'; world = w'; same_sources = same; conserved = c }
