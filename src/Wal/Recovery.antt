-- ===== src/Wal/Recovery.antt =====
-- `Wal::open` on a directory that an earlier process left, the end of a segment perhaps cut short.
use cross_xagent.Base.{
  ℕ, ◌+◌, ◌≤◌, ◌≡◌, refl, sym, ap, ◌∙◌, Bool-cases, inl, inr, Option, some, List, [], ◌∷◌, ◌++◌,
  arith, Bytes, u64_max, length, length-append, keep, last_or,
}
use mathlib.Core.Path.{subst}
use mathlib.Core.List.{append_assoc}
use cross_xagent.Wal.Disk.{ok, Cursor, Files, Disk, find_file, contents, read_cursor}
use cross_xagent.Wal.Record.{RecordMeta, encode_record}
use cross_xagent.Wal.Ops.{Wal, Step, cursor_or_start, enforce_cap, open_wal}
use cross_xagent.Wal.Files.{keys, EndsAt, EndsAt-le, file_bytes, find_last, segment_sequences-keys}
use cross_xagent.Wal.Reading.{read_at-encode_record, length-encode_record}
use cross_xagent.Wal.Reads.{Reads, Reads-append, read_record-of_find}
use cross_xagent.Wal.Scanning.{encode_all, metas_from, is_pending}
use cross_xagent.Wal.Queue.{InOrder, InOrder-weaken, IsValid}
use cross_xagent.Wal.Enforce.{Enforced, enforce_cap_lem}
use cross_xagent.Wal.Stored.{
  Segment, stored, repaired, Whole, pending_metas, pending_from, pending_payloads, StartsBelow,
  StartsBelow-next, AllBelow, find_file-append, open_segment-found, scan_segments-stored,
}

-- The index of one segment reads back the payloads that stand behind `before` in its file.
Reads-segment :
    (c : Cursor) (fs : Files) (s : ℕ) (before : Bytes) (ps : List Bytes)
    → find_file s fs ≡ some (before ++ encode_all ps)
    → Reads fs
        (keep (is_pending c) (metas_from s (length before) ps))
        (pending_from c s (length before) ps)
Reads-segment c fs s before [] found = tt
Reads-segment c fs s before (p ∷ ps) found =
    let m : RecordMeta = record { segment = s; offset = length before; payload_len = length p } in
    let next : length (before ++ encode_record p) ≡ length before + (8 + length p) =
      omega (arith, length-append before (encode_record p), length-encode_record p) in
    let rest =
      Reads-segment c fs s (before ++ encode_record p) ps
        (found ∙ ap some (sym (append_assoc before (encode_record p) (encode_all ps)))) in
    let later = rw next at rest in
    elim (Bool-cases (is_pending c m)) [
      | inl e ↦ rw e (
        read_record-of_find fs m _ found ∙ read_at-encode_record s before p (encode_all ps),
        later,
      )
      | inr e ↦ rw e later
    ]

-- So does the index of all segments.
Reads-first :
    (c : Cursor) (g : Segment) (l : List Segment) (front : Files)
    → AllBelow g.sequence front
    → Reads
        ((front ++ ((g.sequence, encode_all g.payloads) ∷ [])) ++ repaired l)
        (pending_metas c l)
        (pending_payloads c l)
    → Reads (front ++ repaired (g ∷ l)) (pending_metas c (g ∷ l)) (pending_payloads c (g ∷ l))
Reads-first c g l front below later =
    Reads-append _ _ (pending_metas c l) (pending_from c g.sequence 0 g.payloads)
      (pending_payloads c l)
      (Reads-segment c _ g.sequence [] g.payloads
        (find_file-append g.sequence (encode_all g.payloads) front (repaired l) below))
      (rw append_assoc at later)

pub Reads-repaired :
    (c : Cursor) (l : List Segment) (a : ℕ) (front : Files)
    → EndsAt (keys (stored l)) a
    → StartsBelow l front
    → Reads (front ++ repaired l) (pending_metas c l) (pending_payloads c l)
Reads-repaired c [] a front h below = tt
Reads-repaired c (g ∷ []) a front h below = Reads-first c g [] front below tt
Reads-repaired c (g ∷ k ∷ l) a front h below = Reads-first c g (k ∷ l) front below (
    Reads-repaired c (k ∷ l) a (front ++ ((g.sequence, encode_all g.payloads) ∷ [])) h.1
      (StartsBelow-next g (k ∷ l) front a (encode_all g.payloads) h below))

-- The records of one segment stand in front of those of later ones.
InOrder-segment :
    (c : Cursor) (lo s offset : ℕ) (ps : List Bytes) (ms : List RecordMeta) (hi : ℕ)
    → lo ≤ s
    → s ≤ hi
    → InOrder s ms hi
    → InOrder lo (keep (is_pending c) (metas_from s offset ps) ++ ms) hi
InOrder-segment c lo s offset [] ms hi le top h = InOrder-weaken s lo ms hi le h
InOrder-segment c lo s offset (p ∷ ps) ms hi le top h =
    elim (Bool-cases
      (is_pending c (record { segment = s; offset = offset; payload_len = length p }))) [
        | inl e ↦
            rw e (
              le,
              top,
              InOrder-segment c s s (offset + (8 + length p)) ps ms hi (omega arith) top h,
            )
        | inr e ↦ rw e (InOrder-segment c lo s (offset + (8 + length p)) ps ms hi le top h)
      ]

pub InOrder-pending_metas :
    (c : Cursor) (lo : ℕ) (g : Segment) (l : List Segment) (a : ℕ)
    → EndsAt (keys (stored (g ∷ l))) a
    → lo ≤ g.sequence
    → InOrder lo (pending_metas c (g ∷ l)) a
InOrder-pending_metas c lo g [] a h le =
    InOrder-segment c lo g.sequence 0 g.payloads [] a le (omega arith) tt
InOrder-pending_metas c lo g (k ∷ l) a h le =
    InOrder-segment c lo g.sequence 0 g.payloads (pending_metas c (k ∷ l)) a le
      (EndsAt-le g.sequence (keys (stored (k ∷ l))) a h)
      (InOrder-pending_metas c g.sequence k l a h.1 (omega arith))

pub keys-repaired : (l : List Segment) → keys (repaired l) ≡ keys (stored l)
keys-repaired [] = refl
keys-repaired (g ∷ l) = ap (λ ks. g.sequence ∷ ks) (keys-repaired l)

last_or-EndsAt : (d : ℕ) (ks : List ℕ) (a : ℕ) → EndsAt ks a → last_or d ks ≡ a
last_or-EndsAt d [] a h = absurd h
last_or-EndsAt d (s ∷ []) a h = h
last_or-EndsAt d (s ∷ t ∷ ks) a h = last_or-EndsAt s (t ∷ ks) a h.1

-- The log that is made of these segments and this cursor before the cap is enforced.
abbrev pub recovered : Disk → ℕ → ℕ → Cursor → List Segment → Wal
recovered d max_bytes a c l = record {
  disk = record d { files = repaired l };
  max_bytes = max_bytes;
  active_segment = a;
  cursor = c;
  records = pending_metas c l;
}

pub recovered-IsValid :
    (d : Disk) (max_bytes a : ℕ) (c : Cursor) (g : Segment) (l : List Segment)
    → EndsAt (keys (stored (g ∷ l))) a
    → length (contents a (repaired (g ∷ l))) ≤ max_bytes
    → IsValid (recovered d max_bytes a c (g ∷ l)) (pending_payloads c (g ∷ l))
recovered-IsValid d max_bytes a c g l h room = record {
  files = subst (λ ks. EndsAt ks a) (sym (keys-repaired (g ∷ l))) h;
  order = InOrder-pending_metas c 0 g l a h (omega arith);
  reads = Reads-repaired c (g ∷ l) a [] h tt;
  room = room;
}

pub open_wal-recovered :
    (d : Disk) (max_bytes a : ℕ) (g : Segment) (l : List Segment) (cursor : Option Cursor)
    → d.files ≡ stored (g ∷ l)
    → EndsAt (keys (stored (g ∷ l))) a
    → Whole (g ∷ l)
    → read_cursor d ≡ ok cursor
    → open_wal d max_bytes
      ≡ ok (enforce_cap (recovered d max_bytes a (cursor_or_start g.sequence cursor) (g ∷ l)))
unfolding open_wal
open_wal-recovered d max_bytes a g l cursor same h whole read =
    let (file, found) = find_last (stored (g ∷ l)) a h in
    rw
      (
        read,
        same,
        segment_sequences-keys (stored (g ∷ l)) a h,
        last_or-EndsAt 0 (keys (stored (g ∷ l))) a h,
        open_segment-found a file (stored (g ∷ l)) found,
        scan_segments-stored (cursor_or_start g.sequence cursor) (g ∷ l) a [] h whole tt,
      )
      refl

-- A directory whose segment files ascend, the last one within the cap and all together within a
-- u64, each whole records followed by what an interrupted write left, opens for every readable or
-- missing cursor: the torn ends are cut off, and the log delivers the payloads that the cursor
-- has not passed, less the oldest where the cap asks for it.
pub open_wal_lem :
    (d : Disk) (max_bytes a : ℕ) (g : Segment) (l : List Segment) (cursor : Option Cursor)
    → d.files ≡ stored (g ∷ l)
    → EndsAt (keys (stored (g ∷ l))) a
    → Whole (g ∷ l)
    → read_cursor d ≡ ok cursor
    → length (contents a (repaired (g ∷ l))) ≤ max_bytes
    → file_bytes (repaired (g ∷ l)) ≤ u64_max
    → (let c = cursor_or_start g.sequence cursor in
        (r : Step (Unit {0})) × (open_wal d max_bytes ≡ ok r)
        × Enforced (recovered d max_bytes a c (g ∷ l)) (pending_payloads c (g ∷ l)) r)
open_wal_lem d max_bytes a g l cursor same h whole read room small =
    let c = cursor_or_start g.sequence cursor in
    let w = recovered d max_bytes a c (g ∷ l) in
    (
      enforce_cap w,
      open_wal-recovered d max_bytes a g l cursor same h whole read,
      enforce_cap_lem w _ (recovered-IsValid d max_bytes a c g l h room) small,
    )
