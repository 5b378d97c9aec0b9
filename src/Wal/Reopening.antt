-- ===== src/Wal/Reopening.antt =====
-- A process that uses the log, stops at any point, and opens it again.
use cross_xagent.Base.{
  ℕ, ◌+◌, ◌≤◌, ◌<◌, ◌≡◌, refl, sym, ap, Bool-cases, inl, inr, none, List, [], ◌∷◌, arith, Bytes,
  u32_max, u64_max, length, le→ltb,
}
use mathlib.Core.Path.{subst}
use cross_xagent.Wal.Disk.{
  ok, Disk, contents, find_file, read_cursor, write_file, open_segment, segment_sequences,
}
use cross_xagent.Wal.Record.{WalEntry, header_bytes, segment_max_bytes, scan_loop, scan_bytes}
use cross_xagent.Wal.Ops.{
  Wal, cursor_or_start, is_head, roll_if_full, write_record, enforce_cap, append, ack, next,
  scan_segment, scan_segments, open_wal,
}
use cross_xagent.Wal.Files.{file_bytes}
use cross_xagent.Wal.Queue.{IsValid, next_lem}
use cross_xagent.Wal.Append.{roll_if_full_lem, write_record_lem}
use cross_xagent.Wal.Enforce.{bind_step_ok}
use cross_xagent.Wal.Delivery.{HasRoom, append-HasRoom}
use cross_xagent.Wal.Stored.{pending_payloads}
use cross_xagent.Wal.Recovery.{recovered-IsValid}
use cross_xagent.Wal.Torn.{enforce_cap-within}
use cross_xagent.Wal.Places.{Le-refl}
use cross_xagent.Wal.Durable.{IsStored, interrupted, open_wal-interrupted, recovered-of_IsStored}
use cross_xagent.Wal.Progress.{contents-file_bytes}
use cross_xagent.Wal.Acked.{ack-IsStored}
use cross_xagent.Wal.Rolled.{roll_if_full-IsStored}
use cross_xagent.Wal.Written.{write_record-IsStored}
use cross_xagent.Wal.Evicting.{enforce_cap-IsStored}

-- The log is what its directory says, and within its cap.
pub record IsDurable (w : Wal) : Type 0 where
  pub stored : IsStored w
  pub within : file_bytes w.disk.files ≤ w.max_bytes

-- What is still to be delivered.
abbrev pub queue_of : (w : Wal) → IsStored w → List Bytes
queue_of w v =
    pending_payloads (cursor_or_start v.first.sequence v.stored_cursor) (v.first ∷ v.later)

room_of : (w : Wal) → IsDurable w → length (contents w.active_segment w.disk.files) ≤ w.max_bytes
room_of w v = omega (arith, contents-file_bytes w.active_segment w.disk.files, v.within)

-- Such a log is well formed.
pub IsDurable-IsValid : (w : Wal) (v : IsDurable w) → IsValid w (queue_of w v.stored)
IsDurable-IsValid w v =
    let s = v.stored in
    subst (λ w'. IsValid w' (queue_of w s)) (recovered-of_IsStored w s w.disk.files)
      (recovered-IsValid w.disk w.max_bytes w.active_segment
        (cursor_or_start s.first.sequence s.stored_cursor) s.first s.later s.ends
        (subst (λ fs. length (contents w.active_segment fs) ≤ w.max_bytes) s.files (room_of w v)))

-- A log whose cap holds a full segment, and twice fits a u64, has room for a payload that fits the
-- header and the cap, as long as a sequence number is left.
pub IsDurable-HasRoom :
    (w : Wal) (p : Bytes)
    → IsDurable w
    → segment_max_bytes ≤ w.max_bytes
    → w.max_bytes + w.max_bytes ≤ u64_max
    → length p ≤ u32_max
    → header_bytes + length p ≤ w.max_bytes
    → w.active_segment < u64_max
    → HasRoom p w
IsDurable-HasRoom w p v big small short fits sequences = record {
  short = short;
  fits = fits;
  full_segment = big;
  sequences = sequences;
  total = omega (arith, v.within, small, fits);
}

append-IsStored :
    (w : Wal) (p : Bytes)
    → IsDurable w
    → length p ≤ u32_max
    → header_bytes + length p ≤ w.max_bytes
    → segment_max_bytes ≤ w.max_bytes
    → w.active_segment < u64_max
    → file_bytes w.disk.files + (header_bytes + length p) ≤ u64_max
    → IsStored (append p w).1
unfolding append
append-IsStored w p v short fits big room small =
    let q = queue_of w v.stored in
    let r = roll_if_full_lem w q (header_bytes + length p) (IsDurable-IsValid w v) room big fits in
    let rolled = roll_if_full-IsStored w (header_bytes + length p) v.stored in
    let w' = (roll_if_full (header_bytes + length p) w).1 in
    let written = write_record-IsStored w' p rolled short (omega (arith, r.same_bytes)) in
    let valid = write_record_lem w' q p r.valid (omega (arith, r.fits, r.same_max)) in
    rw
      (
        le→ltb u32_max (length p) short,
        le→ltb w.max_bytes (8 + length p) fits,
        bind_step_ok (roll_if_full (8 + length p) w) (λ _ w'. enforce_cap (write_record p w')) tt
            r.succeeds,
      )
      (enforce_cap-IsStored (write_record p w') written valid.room)

pub append-IsDurable : (w : Wal) (p : Bytes) → IsDurable w → HasRoom p w → IsDurable (append p w).1
append-IsDurable w p v c =
    let a = append-HasRoom w (queue_of w v.stored) p (IsDurable-IsValid w v) c in
    record {
      stored = append-IsStored w p v c.short c.fits c.full_segment c.sequences c.total;
      within = omega (arith, a.fits, a.same_max);
    }

max_bytes-ack : (w : Wal) (entry : WalEntry) → (ack entry w).1.max_bytes ≡ w.max_bytes
unfolding ack
max_bytes-ack w entry = elim (Bool-cases (is_head entry w.records)) [
  | inl head ↦ rw head refl
  | inr other ↦ rw other refl
]

pub ack-IsDurable : (w : Wal) (entry : WalEntry) → IsDurable w → IsDurable (ack entry w).1
ack-IsDurable w entry v =
    let (stored, less) = ack-IsStored w entry v.stored in
    record { stored = stored; within = omega (arith, less, v.within, max_bytes-ack w entry) }

-- The states that a log comes to by calls of its methods.
pub data Runs (w : Wal) : Wal → Type 0 where
  start : Runs w w
  then_append : (w' : Wal) → Runs w w' → (p : Bytes) → HasRoom p w' → Runs w (append p w').1
  then_next : (w' : Wal) → Runs w w' → Runs w (next w').1
  then_ack : (w' : Wal) → Runs w w' → (entry : WalEntry) → Runs w (ack entry w').1

pub Runs-IsDurable : (w w' : Wal) → IsDurable w → Runs w w' → IsDurable w'
Runs-IsDurable w w' v start = v
Runs-IsDurable w w' v (then_append w1 r p accepts) =
    append-IsDurable w1 p (Runs-IsDurable w w1 v r) accepts
Runs-IsDurable w w' v (then_next w1 r) =
    let d = Runs-IsDurable w w1 v r in
    subst IsDurable (sym (next_lem w1 _ (IsDurable-IsValid w1 d)).0) d
Runs-IsDurable w w' v (then_ack w1 r entry) = ack-IsDurable w1 entry (Runs-IsDurable w w1 v r)

-- A new directory, and the log that `Wal::open` makes of it.
abbrev pub new_disk : Disk
new_disk = record { files = []; cursor_file = none }

abbrev pub new_wal : ℕ → Wal
new_wal max_bytes = record {
  disk = record { files = (0, []) ∷ []; cursor_file = none };
  max_bytes = max_bytes;
  active_segment = 0;
  cursor = record { segment = 0; offset = 0 };
  records = [];
}

pub new_wal-IsDurable : (max_bytes : ℕ) → IsDurable (new_wal max_bytes)
unfolding read_cursor contents find_file
new_wal-IsDurable max_bytes = record {
  stored = record {
    first = record { sequence = 0; payloads = []; torn = [] };
    later = [];
    files = refl;
    ends = refl;
    fits = (tt, tt);
    stored_cursor = none;
    cursor_file = refl;
    cursor = refl;
    records = refl;
    reach = Le-refl (record { segment = 0; offset = 0 });
    bounded = omega arith;
    active = omega arith;
  };
  within = omega arith;
}

pub open_wal-new : (max_bytes : ℕ) → open_wal new_disk max_bytes ≡ ok (ok tt, new_wal max_bytes)
unfolding open_wal segment_sequences open_segment find_file write_file read_cursor scan_segments
    scan_segment scan_bytes scan_loop contents
open_wal-new max_bytes =
    ap ok (enforce_cap-within (new_wal max_bytes) refl (omega arith) (omega arith))

-- After any run of `append`, `next` and `ack` that starts at a log that its directory determines, and
-- whose appends satisfy the conditions of a successful one, `Wal::open` of the directory returns the
-- very log that the run had come to, also when one more write, of a payload that fits the header,
-- stopped before its last byte.
pub open_wal-Runs :
    (n : ℕ) (payload : Bytes) (w w' : Wal)
    → IsDurable w
    → Runs w w'
    → length payload ≤ u32_max
    → n < header_bytes + length payload
    → open_wal (interrupted n payload w') w'.max_bytes ≡ ok (ok tt, w')
open_wal-Runs n payload w w' v runs short less =
    let v' = Runs-IsDurable w w' v runs in
    open_wal-interrupted n payload w' v'.stored v'.within short less
