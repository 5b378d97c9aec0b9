-- ===== src/Wal/Tests.antt =====
-- Runs of the write-ahead log on small inputs, and the theorems at concrete inputs.
use cross_xagent.Base.{
  ℕ, zero, suc, ◌+◌, Bytes, ap, ◌↔◌, true, ◌≡◌, refl, inl, ◌≤◌, none, some, [], ◌∷◌, arith,
  le_bytes, le_value, length, u64_max,
}
use cross_xagent.Relay.Auth.{ascii}
use cross_xagent.Wal.Disk.{
  ok, err, over_capacity, Disk, find_file, write_file, unlink, contents, segment_sequences,
  open_segment, remove_file, total_segment_bytes, persist_cursor, read_cursor,
}
use cross_xagent.Wal.Record.{
  WalEntry, crc32, encode_record, read_record, read_at, read_exact, at_or_after, scan_loop,
  scan_bytes,
}
use cross_xagent.Wal.Ops.{
  Wal, Step, append, next, ack, pending, open_wal, scan_segments, scan_segment, roll_if_full,
  write_record, enforce_cap, is_head,
}
use cross_xagent.Wal.Files.{file_bytes}
use cross_xagent.Wal.Names.{
  segment_name, sequence_of_name, strip_prefix, strip_suffix, parse_u64, parse_digits, parse_digit,
}
use cross_xagent.Wal.Naming.{sequence_of_name-segment_name}
use cross_xagent.Wal.Stored.{Segment, stored, repaired, pending_payloads}
use cross_xagent.Wal.Recovery.{recovered, open_wal_lem}
use cross_xagent.Wal.Durable.{interrupted}
use cross_xagent.Wal.Reopening.{
  start, then_append, new_wal, new_wal-IsDurable, open_wal-Runs, IsDurable, IsDurable-IsValid,
  append-IsDurable, queue_of,
}
use cross_xagent.Wal.Stopping.{in_ack, comes_to, stopped, left_in_queue, open_wal-stopped}
use cross_xagent.Wal.Queue.{IsValid}
use cross_xagent.Wal.Acknowledging.{open_wal-ack}
use cross_xagent.Wal.Passing.{Passed, next-Passed}
use cross_xagent.Wal.Refusing.{IsRefused, append-IsRefused}
use cross_xagent.Wal.Enforce.{Enforced, enforce_cap_lem}
use cross_xagent.Wal.Delivery.{HasRoom, Appended, append_lem}
use cross_xagent.Wal.Loss.{single, append-loses}

crc32_check : crc32 (49 ∷ 50 ∷ 51 ∷ 52 ∷ 53 ∷ 54 ∷ 55 ∷ 56 ∷ 57 ∷ []) ≡ 0xcbf43926
unfolding crc32
crc32_check = refl

abbrev empty_disk : Disk
empty_disk = record { files = []; cursor_file = none }

-- Everything that a run of the methods computes with.
runs : Unit {0}
unfolding le_bytes le_value find_file write_file unlink contents segment_sequences open_segment
    remove_file total_segment_bytes persist_cursor read_cursor crc32 encode_record read_record
    read_at read_exact at_or_after scan_loop scan_bytes roll_if_full write_record enforce_cap append
    next ack pending scan_segment scan_segments open_wal
runs = tt

abbrev fresh : Wal
fresh = record {
  disk = record { files = (0, []) ∷ []; cursor_file = none };
  max_bytes = 64;
  active_segment = 0;
  cursor = record { segment = 0; offset = 0 };
  records = [];
}

open_empty : open_wal empty_disk 64 ≡ ok (ok tt, fresh)
unfolding runs
open_empty = refl

abbrev two_appended : Wal
two_appended = (append (7 ∷ []) (append (5 ∷ 6 ∷ []) fresh).1).1

two_pending : pending two_appended ≡ 2
unfolding runs
two_pending = refl

first_is_head :
    (next two_appended).0 ≡ ok (some (record { segment = 0; offset = 0; payload = 5 ∷ 6 ∷ [] }))
unfolding runs
first_is_head = refl

-- A log with a cap of 8 MiB that holds nothing yet.
abbrev roomy : Wal
roomy = record fresh { max_bytes = 8388608 }

roomy-IsValid : IsValid roomy []
unfolding contents find_file
roomy-IsValid = record { files = refl; order = tt; reads = tt; room = omega arith }

-- The log after the append of one payload.
abbrev loaded : Wal
loaded = record roomy {
  disk = record { files = (0, encode_record (7 ∷ [])) ∷ []; cursor_file = none };
  records = record { segment = 0; offset = 0; payload_len = 1 } ∷ [];
}

loaded-IsValid : IsValid loaded ((7 ∷ []) ∷ [])
unfolding runs
loaded-IsValid = record {
  files = refl;
  order = (omega arith, omega arith, tt);
  reads = (refl, tt);
  room = omega arith;
}

append_lem_example : Appended roomy [] (7 ∷ []) (append (7 ∷ []) roomy)
append_lem_example =
    append_lem roomy [] (7 ∷ []) roomy-IsValid (omega arith) (omega arith) (omega arith)
      (omega arith) (omega arith)

-- The first of two records was damaged on disk.
abbrev damaged : Wal
damaged = record roomy {
  disk = record {
    files = (0, 1 ∷ 0 ∷ 0 ∷ 0 ∷ 9 ∷ 9 ∷ 9 ∷ 9 ∷ 6 ∷ encode_record (7 ∷ [])) ∷ [];
    cursor_file = none;
  };
  records =
      record { segment = 0; offset = 0; payload_len = 1 }
      ∷ record { segment = 0; offset = 9; payload_len = 1 }
      ∷ [];
}

damaged_skipped :
    (next damaged).0 ≡ ok (some (record { segment = 0; offset = 9; payload = 7 ∷ [] }))
unfolding runs
damaged_skipped = refl

next-Passed_example : Passed damaged (next damaged)
next-Passed_example = next-Passed damaged

loaded-small : file_bytes loaded.disk.files ≤ u64_max
unfolding runs
loaded-small = omega arith

enforce_cap_lem_example : Enforced loaded ((7 ∷ []) ∷ []) (enforce_cap loaded)
enforce_cap_lem_example = enforce_cap_lem loaded ((7 ∷ []) ∷ []) loaded-IsValid loaded-small

filler : ℕ → Bytes
filler zero = []
filler (suc n) = 0 ∷ filler n

length-filler : (n : ℕ) → length (filler n) ≡ n
unfolding filler
length-filler zero = refl
length-filler (suc n) = ap suc (length-filler n)

roomy_total : file_bytes roomy.disk.files + (8 + length (filler 8388608)) ≤ u64_max
roomy_total = omega (arith, length-filler 8388608)

-- A payload as long as the cap.
append-IsRefused_example :
    (((append (filler 8388608) roomy).0 ≡ err over_capacity)
      ↔ IsRefused roomy (filler 8388608) over_capacity)
    × (((append (filler 8388608) roomy).0 ≡ err over_capacity)
        ↔ (append (filler 8388608) roomy ≡ (err over_capacity, roomy)))
append-IsRefused_example =
    append-IsRefused roomy [] (filler 8388608) over_capacity roomy-IsValid (omega arith)
      (omega arith) roomy_total

-- Twelve bytes are in the segment, and a record of ten fits a cap of twenty by itself.
append-loses_example :
    ((append (8 ∷ 9 ∷ []) (
        single 0 20 none
          (record { segment = 0; offset = 12 })
          (3 ∷ 3 ∷ 3 ∷ 3 ∷ 3 ∷ 3 ∷ 3 ∷ 3 ∷ 3 ∷ 3 ∷ 3 ∷ 3 ∷ [])
          [])).0
      ≡ ok tt)
    × ((append (8 ∷ 9 ∷ []) (
          single 0 20 none
            (record { segment = 0; offset = 12 })
            (3 ∷ 3 ∷ 3 ∷ 3 ∷ 3 ∷ 3 ∷ 3 ∷ 3 ∷ 3 ∷ 3 ∷ 3 ∷ 3 ∷ [])
            [])).1.records
        ≡ [])
append-loses_example =
    append-loses 0 20 none (record { segment = 0; offset = 12 })
      (3 ∷ 3 ∷ 3 ∷ 3 ∷ 3 ∷ 3 ∷ 3 ∷ 3 ∷ 3 ∷ 3 ∷ 3 ∷ 3 ∷ []) (8 ∷ 9 ∷ []) [] tt (omega arith)
      (omega arith) (omega arith) (omega arith)

-- A log of 16 MiB that took one payload.
abbrev large : Wal
large = new_wal 16777216

large-HasRoom : HasRoom (5 ∷ 6 ∷ []) large
unfolding contents find_file
large-HasRoom = record {
  short = omega arith;
  fits = omega arith;
  full_segment = omega arith;
  sequences = omega arith;
  total = omega arith;
}

-- The write of a second payload stops after its length field.
open_wal-Runs_example :
    let w' = (append (5 ∷ 6 ∷ []) large).1 in
    open_wal (interrupted 4 (9 ∷ []) w') w'.max_bytes ≡ ok (ok tt, w')
open_wal-Runs_example =
    open_wal-Runs 4 (9 ∷ []) large (append (5 ∷ 6 ∷ []) large).1 (new_wal-IsDurable 16777216)
      (then_append large start (5 ∷ 6 ∷ []) large-HasRoom) (omega arith) (omega arith)

abbrev appended-IsDurable : IsDurable (append (5 ∷ 6 ∷ []) large).1
appended-IsDurable = append-IsDurable large (5 ∷ 6 ∷ []) (new_wal-IsDurable 16777216) large-HasRoom

-- The acknowledgement of the only payload stops behind the cursor file.
open_wal-stopped_example :
    let w = (append (5 ∷ 6 ∷ []) large).1 in
    (open_wal (stopped in_ack w) w.max_bytes ≡ ok (ok tt, comes_to in_ack w))
    × IsValid (comes_to in_ack w) (left_in_queue in_ack (queue_of w appended-IsDurable.stored))
open_wal-stopped_example =
    let w = (append (5 ∷ 6 ∷ []) large).1 in
    open_wal-stopped in_ack w (queue_of w appended-IsDurable.stored) appended-IsDurable
      (IsDurable-IsValid w appended-IsDurable) tt

appended-IsValid : IsValid (append (5 ∷ 6 ∷ []) large).1 ((5 ∷ 6 ∷ []) ∷ [])
unfolding runs
appended-IsValid = record {
  files = refl;
  order = (omega arith, omega arith, tt);
  reads = (refl, tt);
  room = omega arith;
}

appended_head :
    is_head
      (record { segment = 0; offset = 0; payload = 5 ∷ 6 ∷ [] })
      (append (5 ∷ 6 ∷ []) large).1.records
    ≡ true
unfolding runs
appended_head = refl

-- The acknowledgement of the only payload.
open_wal-ack_example :
    let w = (append (5 ∷ 6 ∷ []) large).1 in
    let entry : WalEntry = record { segment = 0; offset = 0; payload = 5 ∷ 6 ∷ [] } in
    ((ack entry w).0 ≡ ok tt)
    × IsValid (ack entry w).1 []
    × (open_wal (ack entry w).1.disk w.max_bytes ≡ ok (ok tt, (ack entry w).1))
open_wal-ack_example =
    let w = (append (5 ∷ 6 ∷ []) large).1 in
    let entry : WalEntry = record { segment = 0; offset = 0; payload = 5 ∷ 6 ∷ [] } in
    open_wal-ack w (5 ∷ 6 ∷ []) [] entry appended-IsDurable appended-IsValid appended_head

abbrev half_written : Segment
half_written = record { sequence = 3; payloads = (5 ∷ 6 ∷ []) ∷ []; torn = 1 ∷ 0 ∷ [] }

abbrev left_behind : Disk
left_behind = record { files = stored (half_written ∷ []); cursor_file = none }

half_written_room : length (contents 3 (repaired (half_written ∷ []))) ≤ 64
unfolding contents find_file encode_record le_bytes crc32
half_written_room = omega arith

half_written_size : file_bytes (repaired (half_written ∷ [])) ≤ u64_max
unfolding encode_record le_bytes crc32
half_written_size = omega arith

left_behind_cursor : read_cursor left_behind ≡ ok none
unfolding read_cursor
left_behind_cursor = refl

open_wal_lem_example :
    (r : Step (Unit {0})) × (open_wal left_behind 64 ≡ ok r)
    × Enforced
        (recovered left_behind 64 3 (record { segment = 3; offset = 0 }) (half_written ∷ []))
        (pending_payloads (record { segment = 3; offset = 0 }) (half_written ∷ []))
        r
open_wal_lem_example =
    open_wal_lem left_behind 64 3 half_written [] none refl refl
      ((omega arith, tt), inl (omega arith), tt) left_behind_cursor half_written_room
      half_written_size

-- A name that no segment is written with is taken for one.
leading_zero : sequence_of_name (ascii "wal-05.log") ≡ some 5
unfolding sequence_of_name strip_prefix strip_suffix parse_u64 parse_digits parse_digit
leading_zero = refl

sequence_of_name-segment_name_example : sequence_of_name (segment_name 42) ≡ some 42
sequence_of_name-segment_name_example = sequence_of_name-segment_name 42 (omega arith)
