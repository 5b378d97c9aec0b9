-- ===== src/Wal/Acknowledging.antt =====
-- `ack` of the head on disk: the log that it leaves is the one that a restart finds.
use cross_xagent.Base.{◌≡◌, true, List, ◌∷◌, Bytes}
use cross_xagent.Wal.Disk.{ok}
use cross_xagent.Wal.Record.{WalEntry}
use cross_xagent.Wal.Ops.{Wal, is_head, ack, open_wal}
use cross_xagent.Wal.Queue.{IsValid, ack_lem}
use cross_xagent.Wal.Reopening.{IsDurable}
use cross_xagent.Wal.Settled.{ack-Settled}
use cross_xagent.Wal.Stopping.{open_wal-IsStored}

-- On a log that its directory determines, and whose queue has a head, `ack` of the entry at that head
-- succeeds and leaves a well-formed log of the other payloads; `Wal::open` of the directory that it
-- leaves returns that very log, so that a restart finds the acknowledged payload gone and every other
-- one still pending.
pub open_wal-ack :
    (w : Wal) (p : Bytes) (q : List Bytes) (entry : WalEntry)
    → IsDurable w
    → IsValid w (p ∷ q)
    → is_head entry w.records ≡ true
    → ((ack entry w).0 ≡ ok tt)
      × IsValid (ack entry w).1 q
      × (open_wal (ack entry w).1.disk w.max_bytes ≡ ok (ok tt, (ack entry w).1))
open_wal-ack w p q entry durable valid head =
    let (succeeds, rest) = ack_lem w p q entry valid head in
    let settled = ack-Settled w entry durable in
    let w' = (ack entry w).1 in
    (
      succeeds,
      rest,
      rw settled.same_max at (open_wal-IsStored w' settled.durable.stored settled.durable.within),
    )
