-- ===== src/Wal/Stopping.antt =====
-- A stop of the process between the writes of `append` and of `ack`, and what `Wal::open` makes of it.
use cross_xagent.Base.{
  ℕ, ◌+◌, ◌≤◌, ◌<◌, ◌≡◌, sym, ap, ◌∙◌, inl, List, [], ◌∷◌, arith, Bytes, u32_max, u64_max, length,
}
use mathlib.Core.List.{append-nil}
use cross_xagent.Wal.Disk.{ok, Files, Disk, persist_cursor}
use cross_xagent.Wal.Record.{RecordMeta, header_bytes, segment_max_bytes}
use cross_xagent.Wal.Ops.{Wal, pop_front, advance_cursor, roll_if_full, open_wal}
use cross_xagent.Wal.Files.{file_bytes}
use cross_xagent.Wal.Reads.{Reads}
use cross_xagent.Wal.Queue.{IsValid, InOrder-pop, Reads-pop}
use cross_xagent.Wal.Append.{roll_if_full_lem}
use cross_xagent.Wal.Scanning.{encode_all}
use cross_xagent.Wal.Stored.{Segment, repaired}
use cross_xagent.Wal.Torn.{extended, open_wal-torn}
use cross_xagent.Wal.Durable.{IsStored, interrupted, open_wal-interrupted, recovered-of_IsStored}
use cross_xagent.Wal.Acked.{acknowledged, acknowledged-IsStored}
use cross_xagent.Wal.Rolled.{roll_if_full-IsStored}
use cross_xagent.Wal.Reopening.{IsDurable, IsDurable-IsValid, queue_of}

-- Where the process stops: after so many bytes of the record that `append` writes, or in `ack` of the
-- head, with the cursor written and nothing deleted.
pub data Stop : Type 0 where
  in_append : ℕ → Bytes → Stop
  in_ack : Stop

-- The log behind the writes that were done.
abbrev pub comes_to : Stop → Wal → Wal
comes_to (in_append n payload) w = (roll_if_full (header_bytes + length payload) w).1
comes_to in_ack w = acknowledged w

-- The directory that the stop leaves.
abbrev pub stopped : Stop → Wal → Disk
stopped (in_append n payload) w = interrupted n payload (comes_to (in_append n payload) w)
stopped in_ack w = (acknowledged w).disk

abbrev pub left_in_queue : Stop → List Bytes → List Bytes
left_in_queue (in_append n payload) q = q
left_in_queue in_ack [] = []
left_in_queue in_ack (p ∷ q) = q

-- The record of the append fits the header and the cap, which holds a full segment, is not written to
-- its end, and there is a sequence number left.
abbrev pub CanStop : Stop → Wal → Type 0
CanStop (in_append n payload) w =
    (length payload ≤ u32_max)
    × (header_bytes + length payload ≤ w.max_bytes)
    × (segment_max_bytes ≤ w.max_bytes)
    × (n < header_bytes + length payload)
    × (w.active_segment < u64_max)
CanStop in_ack w = Unit

extended-nil : (g : Segment) (l : List Segment) → repaired (g ∷ l) ≡ extended [] g l
extended-nil g [] = ap (λ b. (g.sequence, b) ∷ []) (sym (append-nil (encode_all g.payloads)))
extended-nil g (k ∷ l) = ap (λ fs. (g.sequence, encode_all g.payloads) ∷ fs) (extended-nil k l)

-- A log that its directory determines is what `Wal::open` returns for that directory.
pub open_wal-IsStored :
    (w : Wal)
    → IsStored w
    → file_bytes w.disk.files ≤ w.max_bytes
    → open_wal w.disk w.max_bytes ≡ ok (ok tt, w)
open_wal-IsStored w v within =
    open_wal-torn w.disk w.max_bytes w.active_segment [] v.first v.later v.stored_cursor
      (v.files ∙ extended-nil v.first v.later) v.ends v.fits (inl (omega arith)) v.cursor_file
      (rw v.files at within) (rw v.files at v.bounded)
    ∙ ap (λ x. ok (ok tt, x)) (recovered-of_IsStored w v w.disk.files)

Reads-pop_nil : (fs : Files) (ms : List RecordMeta) → Reads fs ms [] → Reads fs (pop_front ms) []
Reads-pop_nil fs [] h = h
Reads-pop_nil fs (m ∷ ms) h = absurd h

acknowledged-IsValid :
    (w : Wal) (q : List Bytes) → IsValid w q → IsValid (acknowledged w) (left_in_queue in_ack q)
unfolding advance_cursor persist_cursor
acknowledged-IsValid w [] v = record {
  files = v.files;
  order = InOrder-pop 0 w.records w.active_segment v.order;
  reads = Reads-pop_nil w.disk.files w.records v.reads;
  room = v.room;
}
acknowledged-IsValid w (p ∷ q) v = record {
  files = v.files;
  order = InOrder-pop 0 w.records w.active_segment v.order;
  reads = Reads-pop w.disk.files w.records p q v.reads;
  room = v.room;
}

-- The directory determines the log that a stop comes to.
comes_to-IsDurable :
    (stop : Stop) (w : Wal) → IsDurable w → CanStop stop w → IsDurable (comes_to stop w)
unfolding advance_cursor persist_cursor
comes_to-IsDurable (in_append n payload) w v (short, fits, big, less, numbers) =
    let len = header_bytes + length payload in
    let r = roll_if_full_lem w (queue_of w v.stored) len (IsDurable-IsValid w v) numbers big fits in
    record {
      stored = roll_if_full-IsStored w len v.stored;
      within = omega (arith, r.same_bytes, r.same_max, v.within);
    }
comes_to-IsDurable in_ack w v can = record {
  stored = (acknowledged-IsStored w v.stored).0;
  within = v.within;
}

-- What a log whose directory determines it leaves on disk, where the process is stopped in `append`
-- after any part of a record that fits its header and the cap, the new segment before it included,
-- with a cap that holds a full segment and a sequence number left, or in `ack` of the head between
-- the write of the cursor and the first deletion, is opened as the log that the writes came to: its
-- queue is the old one, without its head where the stop was in `ack`.
pub open_wal-stopped :
    (stop : Stop) (w : Wal) (q : List Bytes)
    → IsDurable w
    → IsValid w q
    → CanStop stop w
    → (open_wal (stopped stop w) w.max_bytes ≡ ok (ok tt, comes_to stop w))
      × IsValid (comes_to stop w) (left_in_queue stop q)
unfolding advance_cursor persist_cursor
open_wal-stopped (in_append n payload) w q v valid (short, fits, big, less, numbers) =
    let len = header_bytes + length payload in
    let d = comes_to-IsDurable (in_append n payload) w v (short, fits, big, less, numbers) in
    let r = roll_if_full_lem w q len valid numbers big fits in
    let w' = (roll_if_full len w).1 in
    (
      ap (open_wal (interrupted n payload w')) (sym r.same_max)
          ∙ open_wal-interrupted n payload w' d.stored d.within short less,
      r.valid,
    )
open_wal-stopped in_ack w q v valid can = (
  open_wal-IsStored (acknowledged w) (acknowledged-IsStored w v.stored).0 v.within,
  acknowledged-IsValid w q valid,
)
