-- ===== src/Agent/Lossless.antt =====
-- `run_loop` over starts and stops of the process within the cap of its log: what was submitted is
-- exported in its order.
use cross_xagent.Base.{
  ℕ, ◌+◌, ◌≤◌, ◌≡◌, sym, ap, ◌∙◌, inl, inr, some, List, [], ◌++◌, arith, Bytes, u64_max, length,
}
use cross_xagent.Wal.Disk.{Disk}
use cross_xagent.Wal.Record.{segment_max_bytes}
use cross_xagent.Wal.Ops.{Wal}
use cross_xagent.Wal.Files.{file_bytes}
use cross_xagent.Wal.Queue.{IsValid}
use cross_xagent.Wal.Reopening.{IsDurable}
use cross_xagent.Agent.Retry.{Collector}
use cross_xagent.Agent.Exporter.{Codec}
use cross_xagent.Agent.Running.{Life, open_exporter, run_lives}
use cross_xagent.Agent.Fates.{Merge-all, record_bytes, Exports}
use cross_xagent.Agent.Lives.{Fitting, Stops, submitted, run_lives-Survived}

module _ {Request World : Type 0} (codec : Codec Request) (collector : Collector Request World)
    (boot : World → World) (max_bytes : ℕ) where
  -- The directory can be opened again, and what was submitted was exported in order, but for an end
  -- part, which is in the log.
  pub record Delivered (lives : List (Life Request)) (q : List Bytes) (d : Disk) (w : World)
      : Type 0 where
    pub disk : Disk
    pub world : World
    pub runs : run_lives codec collector boot max_bytes lives d w ≡ some (disk, world)
    pub wal' : Wal
    pub opens : open_exporter disk max_bytes ≡ some wal'
    pub sent : List Bytes
    pub left : List Bytes
    pub in_order : q ++ submitted codec lives ≡ sent ++ left
    pub exports : Exports codec collector boot w sent world
    pub valid : IsValid wal' left

  module _ (decodes : (request : Request) → codec.decode (codec.encode request) ≡ some request)
      (big : segment_max_bytes ≤ max_bytes) (small : max_bytes + max_bytes ≤ u64_max) where
    -- From a directory that opens as a log that its files determine, with a cap that holds a full
    -- segment and twice fits a u64, over any starts of the process, each with its ticks and then a
    -- stop before the last byte of a write, whose payloads fit the header of a record and the cap, are
    -- no more than the sequence numbers left, and decode as they were encoded: where the files and the
    -- records of all payloads fit the cap together, the queue and the submitted payloads are in their
    -- order those that were exported and those that the next start finds in the log.
    pub run_lives-lossless :
        (lives : List (Life Request)) (wal : Wal) (q : List Bytes) (d : Disk) (w : World)
        → open_exporter d max_bytes ≡ some wal
        → wal.max_bytes ≡ max_bytes
        → IsDurable wal
        → IsValid wal q
        → Fitting max_bytes (submitted codec lives)
        → Stops lives
        → wal.active_segment + length (submitted codec lives) ≤ u64_max
        → file_bytes wal.disk.files + record_bytes (submitted codec lives) ≤ max_bytes
        → Delivered lives q d w
    run_lives-lossless lives wal q d w opens same v valid fitting stops numbers within =
        let s =
          run_lives-Survived codec collector boot max_bytes decodes big small lives wal q d w opens
            same v valid fitting stops numbers in
        let c = s.conserved in
        let none_dropped : c.dropped ≡ [] = elim c.spared [
          | inl (nil, _) ↦ nil
          | inr over_cap ↦ absurd (omega (arith, same, over_cap, within))
        ] in
        record {
          disk = s.disk;
          world = s.world;
          runs = s.runs;
          wal' = s.wal';
          opens = s.opens;
          sent = c.sent;
          left = c.left;
          in_order = c.split ∙ ap (λ l. l ++ c.left) (sym (Merge-all c.merge none_dropped));
          exports = c.exports;
          valid = c.valid;
        }
