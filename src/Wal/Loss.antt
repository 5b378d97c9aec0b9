-- ===== src/Wal/Loss.antt =====
-- Where the cap is below one full segment, `append` can evict the record that it has just written:
-- `enforce_cap` then takes the active segment, and `append` still succeeds.
use cross_xagent.Base.{
  ℕ, ◌+◌, ◌≤◌, ◌<◌, ◌≡◌, refl, false, ◌&&◌, Option, List, [], ◌∷◌, ◌++◌, arith, Bytes, u32_max,
  u64_max, length, length-append, keep, ltb, le→ltb, lt→ltb, ◌==◌, ==-refl,
}
use cross_xagent.Wal.Disk.{ok, Cursor, find_file, write_file, open_segment, persist_cursor}
use cross_xagent.Wal.Record.{RecordMeta, header_bytes, segment_max_bytes, encode_record}
use cross_xagent.Wal.Ops.{
  Wal, roll_if_active, roll_if_full, write_record, evict, enforce_loop, enforce_cap, append,
  other_segment,
}
use cross_xagent.Wal.Files.{segment_sequences-keys}
use cross_xagent.Wal.Reading.{length-encode_record}
use cross_xagent.Wal.Queue.{InOrder}
use cross_xagent.Wal.Capacity.{total_segment_bytes_lem, remove_first}
use cross_xagent.Wal.Enforce.{bind_step_ok, loop-stop, contents-only}

keep-none : (s : ℕ) (ms : List RecordMeta) → InOrder s ms s → keep (other_segment s) ms ≡ []
keep-none s [] h = refl
keep-none s (m ∷ ms) h =
    let here : m.segment ≡ s = omega arith in
    let rest : InOrder s ms s = rw here at h.2 in ground (arith, keep-none s ms rest)

keep-none_written :
    (s : ℕ) (ms : List RecordMeta) (m : RecordMeta)
    → m.segment ≡ s
    → InOrder s ms s
    → keep (other_segment s) (ms ++ (m ∷ [])) ≡ []
keep-none_written s [] m e h = ground arith
keep-none_written s (n ∷ ms) m e h =
    let here : n.segment ≡ s = omega arith in
    let rest : InOrder s ms s = rw here at h.2 in ground (arith, keep-none_written s ms m e rest)

open_second : (s : ℕ) (b : Bytes) → open_segment (s + 1) ((s, b) ∷ []) ≡ (s, b) ∷ (s + 1, []) ∷ []
unfolding open_segment find_file write_file
open_second s b = ground arith

module _ (a most : ℕ) (cursor_file : Option Bytes) (c : Cursor) where
  -- A log whose only segment is the active one.
  abbrev pub single : Bytes → List RecordMeta → Wal
  single b ms = record {
    disk = record { files = (a, b) ∷ []; cursor_file = cursor_file };
    max_bytes = most;
    active_segment = a;
    cursor = c;
    records = ms;
  }

  abbrev rolled : Bytes → List RecordMeta → Wal
  rolled b ms = record (single b ms) {
    disk = record { files = (a, b) ∷ (a + 1, []) ∷ []; cursor_file = cursor_file };
    active_segment = a + 1;
  }

  roll_single :
      (b : Bytes) (ms : List RecordMeta)
      → a < u64_max
      → roll_if_active a [] (single b ms) ≡ (ok ((a + 1) ∷ []), rolled b ms)
  unfolding roll_if_active
  roll_single b ms room =
      let not_last : (a == u64_max) ≡ false = ground arith in
      rw (==-refl a, not_last, open_second a b)

  -- After the eviction an empty segment is left, and none of the records.
  evict_single :
      (b : Bytes) (ms : List RecordMeta)
      → keep (other_segment a) ms ≡ []
      → ((evict a (rolled b ms)).0 ≡ ok tt)
        × ((evict a (rolled b ms)).1.disk.files ≡ (a + 1, []) ∷ [])
        × ((evict a (rolled b ms)).1.records ≡ [])
  unfolding evict persist_cursor
  evict_single b ms gone = rw (remove_first a b ((a + 1, []) ∷ []), evict) (refl, refl, gone)

  one_segment :
      (b : Bytes) (ms : List RecordMeta)
      → keep (other_segment a) ms ≡ []
      → a < u64_max
      → most < length b
      → length b ≤ u64_max
      → ((enforce_cap (single b ms)).0 ≡ ok tt) × ((enforce_cap (single b ms)).1.records ≡ [])
  unfolding enforce_cap
  one_segment b ms gone room over small =
      let (done, files, empty) = evict_single b ms gone in
      let total = total_segment_bytes_lem ((a, b) ∷ []) a refl (omega arith) in
      let stop : enforce_loop 2 ((a + 1) ∷ []) (evict a (rolled b ms)).1
          ≡ (ok tt, (evict a (rolled b ms)).1) =
        loop-stop 1 ((a + 1) ∷ []) _ 0
          (rw files (total_segment_bytes_lem ((a + 1, []) ∷ []) (a + 1) refl (omega arith)))
          (omega arith) in
      rw (segment_sequences-keys ((a, b) ∷ []) a refl) (
        rw (total, enforce_loop, lt→ltb most (length b + 0) (omega arith))
          (rw (roll_single b ms room) (
            rw
              (bind_step_ok (evict a (rolled b ms)) (λ _ w. enforce_loop 2 ((a + 1) ∷ []) w) tt
                done)
              (rw stop (refl, empty)))))

  abbrev written : Bytes → Bytes → RecordMeta
  written b p = record { segment = a; offset = length b; payload_len = length p }

  write_single :
      (b p : Bytes) (ms : List RecordMeta)
      → write_record p (single b ms) ≡ single (b ++ encode_record p) (ms ++ (written b p ∷ []))
  unfolding write_record write_file
  write_single b p ms = rw (contents-only a b, ==-refl a)

  stay_single :
      (b : Bytes) (n : ℕ) (ms : List RecordMeta)
      → length b + n ≤ segment_max_bytes
      → roll_if_full n (single b ms) ≡ (ok tt, single b ms)
  unfolding roll_if_full
  stay_single b n ms h =
      let not_full : (ltb 0 (length b) && ltb segment_max_bytes (length b + n)) ≡ false =
        ground arith in
      rw (contents-only a b, not_full)

  -- On a log of one segment with a sequence number left: for a record that fits the cap, and the
  -- segment, but not the cap together with what the segment holds, `append` succeeds and leaves
  -- no record at all, the new one included.
  pub append-loses :
      (b p : Bytes) (ms : List RecordMeta)
      → InOrder a ms a
      → a < u64_max
      → header_bytes + length p ≤ most
      → length b + (header_bytes + length p) ≤ segment_max_bytes
      → most < length b + (header_bytes + length p)
      → ((append p (single b ms)).0 ≡ ok tt) × ((append p (single b ms)).1.records ≡ [])
  unfolding append
  append-loses b p ms order room fits small over =
      let long : length (b ++ encode_record p) ≡ length b + (8 + length p) =
        omega (arith, length-append b (encode_record p), length-encode_record p) in
      rw
        (
          le→ltb u32_max (length p) (omega arith),
          le→ltb most (8 + length p) fits,
          stay_single b (8 + length p) ms small,
          write_single b p ms,
        )
        (one_segment (b ++ encode_record p) (ms ++ (written b p ∷ []))
          (keep-none_written a ms (written b p) refl order) room (omega arith) (omega arith))
