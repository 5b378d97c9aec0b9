-- ===== src/Wal/Ops.antt =====
-- The methods of `Wal` in crates/crossx-agent/src/wal.rs. A method returns its result beside the
-- state, since what was written before an error stays written.
use cross_xagent.Base.{
  ℕ, zero, suc, ◌+◌, Bool, true, false, not, ◌&&◌, Option, none, some, List, [], ◌∷◌, ◌++◌, Bytes,
  u32_max, u64_max, length, keep, take, last_or, ltb, ◌==◌, if◌then◌else◌,
}
use cross_xagent.Wal.Disk.{
  Result, ok, err, payload_too_long, over_capacity, sequence_exhausted, not_head, out_of_fuel,
  Cursor, Files, Disk, write_file, contents, segment_sequences, open_segment, remove_file,
  total_segment_bytes, persist_cursor, read_cursor, ◌>>=◌,
}
use cross_xagent.Wal.Record.{
  header_bytes, segment_max_bytes, RecordMeta, WalEntry, crc32, encode_record, read_record,
  scan_bytes,
}

-- `active_file` is the open handle of segment `active_segment`, so it is no field of its own.
pub record Wal : Type 0 where
  pub disk : Disk
  pub max_bytes : ℕ
  pub active_segment : ℕ
  pub cursor : Cursor
  pub records : List RecordMeta

-- A method on `&mut self`: the result, and the state that it leaves.
abbrev pub Step : Type 0 → Type 0
Step A = Result A × Wal

abbrev pub bind_step : {A B : Type 0} → Step A → (A → Wal → Step B) → Step B
bind_step (ok a, w) f = f a w
bind_step (err e, w) f = (err e, w)

abbrev with_files : Wal → Files → Wal
with_files w fs = record w { disk = record w.disk { files = fs } }

-- `active_segment.checked_add(1)` and `open_segment`
unfoldable pub roll : Wal → Step (Unit {0})
roll w = if w.active_segment == u64_max then (err sequence_exhausted, w) else (
  ok tt,
  record (with_files w (open_segment (w.active_segment + 1) w.disk.files)) {
    active_segment = w.active_segment + 1;
  },
)

-- The place of the first pending record, or the end of the active segment.
unfoldable pub next_cursor : List RecordMeta → Wal → Cursor
next_cursor [] w = record {
  segment = w.active_segment;
  offset = length (contents w.active_segment w.disk.files);
}
next_cursor (m ∷ ms) w = record { segment = m.segment; offset = m.offset }

-- `self.cursor = …; persist_cursor(…)`
unfoldable pub advance_cursor : Wal → Wal
unfolding next_cursor
advance_cursor w =
    let c = next_cursor w.records w in record w { cursor = c; disk = persist_cursor c w.disk }

abbrev pub other_segment : ℕ → RecordMeta → Bool
other_segment s m = not (m.segment == s)

-- From `remove_file` on, in the loop of `enforce_cap`.
unfoldable pub evict : ℕ → Wal → Step (Unit {0})
unfolding advance_cursor
evict oldest w = elim (remove_file oldest w.disk.files) [
  | err e ↦ (err e, w)
  | ok fs ↦ (
    ok tt,
    advance_cursor (record (with_files w fs) { records = keep (other_segment oldest) w.records }),
  )
]

-- The start of a round: the active segment moves on before it is evicted.
unfoldable pub roll_if_active : ℕ → List ℕ → Wal → Step (List ℕ)
unfolding roll
roll_if_active oldest rest w =
    if oldest == w.active_segment
    then bind_step (roll w) (λ _ w'. (ok (rest ++ (w'.active_segment ∷ [])), w'))
    else (ok rest, w)

-- The loop of `enforce_cap` over its local `segments`.
unfoldable pub enforce_loop : ℕ → List ℕ → Wal → Step (Unit {0})
unfolding roll_if_active evict
enforce_loop zero segments w = (err out_of_fuel, w)
enforce_loop (suc fuel) segments w = elim (total_segment_bytes segments w.disk.files) [
  | err e ↦ (err e, w)
  | ok total ↦ elim (ltb w.max_bytes total) [
    | false ↦ (ok tt, w)
    | true ↦ elim segments [
      | [] ↦ (ok tt, w)
      | oldest ∷ rest ↦
          bind_step (roll_if_active oldest rest w)
            (λ rest' w1. bind_step (evict oldest w1) (λ _ w2. enforce_loop fuel rest' w2))
    ]
  ]
]

-- A round takes the oldest segment away, and at most one round adds one.
unfoldable pub enforce_cap : Wal → Step (Unit {0})
unfolding enforce_loop
enforce_cap w =
    let segments = segment_sequences w.disk.files in enforce_loop (length segments + 2) segments w

-- The test before the write of `append`: a record that does not fit starts a new segment.
unfoldable pub roll_if_full : ℕ → Wal → Step (Unit {0})
unfolding roll
roll_if_full record_len w =
    let active_len = length (contents w.active_segment w.disk.files) in
    if ltb 0 active_len && ltb segment_max_bytes (active_len + record_len)
    then roll w
    else (ok tt, w)

-- The writes at the end of the active segment, and the new entry of `records`.
unfoldable pub write_record : Bytes → Wal → Wal
write_record payload w =
    let old = contents w.active_segment w.disk.files in
    record (with_files w
      (write_file w.active_segment (old ++ encode_record payload) w.disk.files)) {
        records =
            w.records
            ++ (record {
              segment = w.active_segment;
              offset = length old;
              payload_len = length payload;
            }
                ∷ []);
      }

unfoldable pub append : Bytes → Wal → Step (Unit {0})
append payload w =
    if ltb u32_max (length payload)
    then (err payload_too_long, w)
    else if ltb w.max_bytes (header_bytes + length payload)
    then (err over_capacity, w)
    else bind_step (roll_if_full (header_bytes + length payload) w)
        (λ _ w'. enforce_cap (write_record payload w'))

-- The loop of `next`: records with a wrong checksum are dropped from the index.
unfoldable pub next_loop : Files → List RecordMeta → Result (Option WalEntry) × List RecordMeta
next_loop fs [] = (ok none, [])
next_loop fs (m ∷ ms) = elim (read_record fs m) [
  | err e ↦ (err e, m ∷ ms)
  | ok (expected, payload) ↦ elim (crc32 payload == expected) [
    | true ↦
        (ok (some (record { segment = m.segment; offset = m.offset; payload = payload })), m ∷ ms)
    | false ↦ next_loop fs ms
  ]
]

unfoldable pub next : Wal → Step (Option WalEntry)
unfolding next_loop
next w = let (r, ms) = next_loop w.disk.files w.records in (r, record w { records = ms })

abbrev pub is_head : WalEntry → List RecordMeta → Bool
is_head entry [] = false
is_head entry (m ∷ ms) = m.segment == entry.segment && m.offset == entry.offset

-- The loop of `delete_fully_acked_segments`.
unfoldable pub delete_acked : List ℕ → Cursor → ℕ → Files → Result (Unit {0}) × Files
delete_acked [] c active fs = (ok tt, fs)
delete_acked (s ∷ ss) c active fs = elim (ltb s c.segment && not (s == active)) [
  | false ↦ delete_acked ss c active fs
  | true ↦ elim (remove_file s fs) [ err e ↦ (err e, fs) | ok fs' ↦ delete_acked ss c active fs' ]
]

unfoldable pub delete_fully_acked_segments : Wal → Step (Unit {0})
unfolding delete_acked
delete_fully_acked_segments w =
    let (r, fs) =
      delete_acked (segment_sequences w.disk.files) w.cursor w.active_segment w.disk.files in
    (r, with_files w fs)

abbrev pub pop_front : List RecordMeta → List RecordMeta
pop_front [] = []
pop_front (m ∷ ms) = ms

unfoldable pub ack : WalEntry → Wal → Step (Unit {0})
unfolding advance_cursor delete_fully_acked_segments
ack entry w =
    if is_head entry w.records
    then delete_fully_acked_segments (advance_cursor (record w { records = pop_front w.records }))
    else (err not_head, w)

unfoldable pub pending : Wal → ℕ
pending w = length w.records

-- `scan_segment`: a missing segment file is created, and a torn tail is cut off.
unfoldable pub scan_segment : ℕ → Cursor → Files → List RecordMeta × Files
scan_segment s c fs =
    let file = contents s fs in
    let scan = scan_bytes s c file in
    (
      scan.records,
      if ltb scan.valid_end (length file)
          then write_file s (take scan.valid_end file) fs
          else open_segment s fs,
    )

unfoldable pub scan_segments : List ℕ → Cursor → Files → List RecordMeta × Files
scan_segments [] c fs = ([], fs)
scan_segments (s ∷ ss) c fs =
    let (ms, fs') = scan_segment s c fs in
    let (ms', fs'') = scan_segments ss c fs' in (ms ++ ms', fs'')

abbrev pub first_or : ℕ → List ℕ → ℕ
first_or d [] = d
first_or d (s ∷ ss) = s

abbrev pub push_if_empty : List ℕ → List ℕ
push_if_empty [] = 0 ∷ []
push_if_empty (s ∷ ss) = s ∷ ss

abbrev pub cursor_or_start : ℕ → Option Cursor → Cursor
cursor_or_start s none = record { segment = s; offset = 0 }
cursor_or_start s (some c) = c

-- `Wal::open`; a failure leaves no `Wal`, and the state beside it is the one that was being built.
unfoldable pub open_wal : Disk → ℕ → Result (Step (Unit {0}))
open_wal d max_bytes =
    let segments = push_if_empty (segment_sequences d.files) in
    let active = last_or 0 segments in
    let fs = open_segment active d.files in
    read_cursor d >>= λ stored.
    let c = cursor_or_start (first_or active segments) stored in
    let (records, fs') = scan_segments segments c fs in
    ok (
      enforce_cap (record {
        disk = record d { files = fs' };
        max_bytes = max_bytes;
        active_segment = active;
        cursor = c;
        records = records;
      }))
