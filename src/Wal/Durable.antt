-- ===== src/Wal/Durable.antt =====
-- A log that its directory and its cursor file determine, and what `Wal::open` makes of that
-- directory when a write to the active segment was interrupted.
use cross_xagent.Base.{
  ℕ, ◌+◌, ◌≤◌, ◌<◌, ◌≡◌, sym, ap, ◌∙◌, Option, List, ◌∷◌, ◌++◌, Bytes, u32_max, u64_max, length,
  take,
}
use cross_xagent.Wal.Disk.{ok, Cursor, Files, Disk, write_file, contents, read_cursor}
use cross_xagent.Wal.Record.{encode_record}
use cross_xagent.Wal.Ops.{Wal, cursor_or_start, open_wal}
use cross_xagent.Wal.Files.{keys, EndsAt, file_bytes}
use cross_xagent.Wal.Stored.{Segment, stored, repaired, pending_metas}
use cross_xagent.Wal.Recovery.{recovered}
use cross_xagent.Wal.Torn.{
  AllFit, extended, write_file-extended, with_index, open_wal-torn, take-IsTorn,
}
use cross_xagent.Wal.Places.{Le, end_of}

-- What is on disk determines the log, and no payload before the end of the log is out of reach of
-- its cursor.
pub record IsStored (w : Wal) : Type 0 where
  pub first : Segment
  pub later : List Segment
  pub files : w.disk.files ≡ repaired (first ∷ later)
  pub ends : EndsAt (keys (stored (first ∷ later))) w.active_segment
  pub fits : AllFit (first ∷ later)
  pub stored_cursor : Option Cursor
  pub cursor_file : read_cursor w.disk ≡ ok stored_cursor
  pub cursor : w.cursor ≡ cursor_or_start first.sequence stored_cursor
  pub records : w.records ≡ pending_metas w.cursor (first ∷ later)
  pub reach : Le w.cursor (end_of w)
  pub bounded : file_bytes w.disk.files ≤ u64_max
  pub active : w.active_segment ≤ u64_max

pub recovered-of_IsStored :
    (w : Wal) (v : IsStored w) (fs : Files)
    → recovered
        (record w.disk { files = fs })
        w.max_bytes
        w.active_segment
        (cursor_or_start v.first.sequence v.stored_cursor)
        (v.first ∷ v.later)
      ≡ w
recovered-of_IsStored w v fs =
    let l = v.first ∷ v.later in
    ap (λ c. recovered (record w.disk { files = fs }) w.max_bytes w.active_segment c l)
      (sym v.cursor)
    ∙ ap (λ ms. with_index w.disk w.max_bytes w.active_segment w.cursor (repaired l) ms)
        (sym v.records)
    ∙ ap (λ gs. with_index w.disk w.max_bytes w.active_segment w.cursor gs w.records) (sym v.files)

-- The disk after the first `n` bytes of the write of a record.
abbrev pub interrupted : ℕ → Bytes → Wal → Disk
interrupted n payload w = record w.disk {
  files =
      write_file w.active_segment
        (contents w.active_segment w.disk.files ++ take n (encode_record payload)) w.disk.files;
}

-- A log that its directory determines is what `Wal::open` returns for that directory, also when the
-- write of one more record, of a length that fits its header, stopped before its last byte.
pub open_wal-interrupted :
    (n : ℕ) (payload : Bytes) (w : Wal)
    → IsStored w
    → file_bytes w.disk.files ≤ w.max_bytes
    → length payload ≤ u32_max
    → n < 8 + length payload
    → open_wal (interrupted n payload w) w.max_bytes ≡ ok (ok tt, w)
unfolding read_cursor
open_wal-interrupted n payload w v within fits less =
    let torn = take n (encode_record payload) in
    let d = interrupted n payload w in
    let same : d.files ≡ extended torn v.first v.later =
      ap (λ fs. write_file w.active_segment (contents w.active_segment fs ++ torn) fs) v.files
      ∙ write_file-extended torn v.first v.later w.active_segment v.ends in
    open_wal-torn d w.max_bytes w.active_segment torn v.first v.later v.stored_cursor same v.ends
      v.fits (take-IsTorn n payload fits less) v.cursor_file (rw v.files at within)
      (rw v.files at v.bounded)
    ∙ ap (λ x. ok (ok tt, x)) (recovered-of_IsStored w v d.files)
