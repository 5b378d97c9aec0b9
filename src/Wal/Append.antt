-- ===== src/Wal/Append.antt =====
-- The steps of `append` before `enforce_cap`: a new segment, and the write of the record.
use cross_xagent.Base.{
  ℕ, ◌+◌, ◌≤◌, ◌<◌, ◌≡◌, refl, ◌∙◌, false, ◌&&◌, none, Bool-cases, inl, inr, List, [], ◌∷◌, ◌++◌,
  arith, Bytes, u64_max, length, length-append, ltb, ◌==◌, ==-refl,
}
use cross_xagent.Wal.Disk.{ok, Files, find_file, write_file, contents, open_segment}
use cross_xagent.Wal.Record.{RecordMeta, encode_record, segment_max_bytes}
use cross_xagent.Wal.Ops.{Wal, Step, roll, roll_if_full, write_record}
use cross_xagent.Wal.Files.{
  file_bytes, file_bytes-open_segment, file_bytes-write_file, EndsAt-concat, keys, keys-write_file,
  keys-write_new, find_above, find_last, find_file-write_file,
}
use cross_xagent.Wal.Reads.{
  Reads-append, Reads-Grows, Grows-open_segment, Grows-write_file, read_record-written,
  contents-of_find,
}
use cross_xagent.Wal.Reading.{length-encode_record}
use cross_xagent.Wal.Queue.{InOrder, IsValid}

InOrder-raise :
    (lo : ℕ) (ms : List RecordMeta) (hi hi' : ℕ) → hi ≤ hi' → InOrder lo ms hi → InOrder lo ms hi'
InOrder-raise lo [] hi hi' le h = tt
InOrder-raise lo (m ∷ ms) hi hi' le h = (h.0, omega arith, InOrder-raise m.segment ms hi hi' le h.2)

InOrder-concat :
    (lo : ℕ) (ms : List RecordMeta) (m : RecordMeta) (hi : ℕ)
    → lo ≤ hi
    → m.segment ≡ hi
    → InOrder lo ms hi
    → InOrder lo (ms ++ (m ∷ [])) hi
InOrder-concat lo [] m hi le e h = (omega arith, omega arith, tt)
InOrder-concat lo (n ∷ ms) m hi le e h = (h.0, h.1, InOrder-concat n.segment ms m hi h.1 e h.2)

keys-open_new :
    (s : ℕ) (fs : Files) → find_file s fs ≡ none → keys (open_segment s fs) ≡ keys fs ++ (s ∷ [])
unfolding open_segment
keys-open_new s fs h = rw (h, open_segment) (keys-write_new s [] fs h)

pub contents-write_file :
    (s : ℕ) (bytes : Bytes) (fs : Files) → contents s (write_file s bytes fs) ≡ bytes
contents-write_file s bytes fs =
    contents-of_find s _ bytes (find_file-write_file s s bytes fs ∙ rw (==-refl s))

pub contents-open_new :
    (s : ℕ) (fs : Files) → find_file s fs ≡ none → contents s (open_segment s fs) ≡ []
unfolding open_segment
contents-open_new s fs h = rw (h, open_segment) (contents-write_file s [] fs)

-- A new segment is empty and the newest, and the queue is as before.
pub record Rolled (w : Wal) (q : List Bytes) (r : Step (Unit {0})) : Type 0 where
  pub succeeds : r.0 ≡ ok tt
  pub valid : IsValid r.1 q
  pub empty : contents r.1.active_segment r.1.disk.files ≡ []
  pub same_max : r.1.max_bytes ≡ w.max_bytes
  pub same_bytes : file_bytes r.1.disk.files ≡ file_bytes w.disk.files
  pub active : r.1.active_segment ≤ w.active_segment + 1

pub roll_lem :
    (w : Wal) (q : List Bytes) → IsValid w q → w.active_segment < u64_max → Rolled w q (roll w)
unfolding roll
roll_lem w q v h =
    let a = w.active_segment in
    let fs = w.disk.files in
    let fresh = find_above (a + 1) fs a v.files (omega arith) in
    rw (not_last, roll)
      (record {
        succeeds = refl;
        valid = record {
          files =
              rw (keys-open_new (a + 1) fs fresh)
                (EndsAt-concat (keys fs) a (a + 1) v.files (omega arith));
          order = InOrder-raise 0 w.records a (a + 1) (omega arith) v.order;
          reads = Reads-Grows fs _ (Grows-open_segment (a + 1) fs) w.records q v.reads;
          room = rw (contents-open_new (a + 1) fs fresh) (omega arith);
        };
        empty = contents-open_new (a + 1) fs fresh;
        same_max = refl;
        same_bytes = file_bytes-open_segment (a + 1) fs;
        active = omega arith;
      })
  where
    not_last : (w.active_segment == u64_max) ≡ false
    not_last = ground arith

-- The record goes behind the active segment, and its payload behind the queue.
pub write_record_lem :
    (w : Wal) (q : List Bytes) (p : Bytes)
    → IsValid w q
    → length (contents w.active_segment w.disk.files) + (8 + length p) ≤ w.max_bytes
    → IsValid (write_record p w) (q ++ (p ∷ []))
unfolding write_record
write_record_lem w q p v room =
    let a = w.active_segment in
    let fs = w.disk.files in
    let old = contents a fs in
    let (bytes, found) = find_last fs a v.files in
    let grown = Grows-write_file a fs (encode_record p) in
    record {
      files = rw (keys-write_file a (old ++ encode_record p) fs bytes found) v.files;
      order = InOrder-concat 0 w.records _ a (omega arith) refl v.order;
      reads =
          Reads-append _ w.records _ q _ (Reads-Grows fs _ grown w.records q v.reads)
            (read_record-written a fs p, tt);
      room =
          rw (contents-write_file a (old ++ encode_record p) fs)
            (omega (arith, length-append old (encode_record p), length-encode_record p));
    }

pub write_record-bytes :
    (w : Wal) (p : Bytes)
    → file_bytes (write_record p w).disk.files ≡ file_bytes w.disk.files + (8 + length p)
unfolding write_record
write_record-bytes w p =
    let old = contents w.active_segment w.disk.files in
    omega (
      arith,
      file_bytes-write_file w.active_segment (old ++ encode_record p) w.disk.files,
      length-append old (encode_record p),
      length-encode_record p,
    )

-- After the test for a full segment the record fits the cap together with the active segment,
-- provided that the cap is at least one full segment.
pub record Prepared (w : Wal) (q : List Bytes) (n : ℕ) (r : Step (Unit {0})) : Type 0 where
  pub succeeds : r.0 ≡ ok tt
  pub valid : IsValid r.1 q
  pub same_max : r.1.max_bytes ≡ w.max_bytes
  pub same_bytes : file_bytes r.1.disk.files ≡ file_bytes w.disk.files
  pub active : r.1.active_segment ≤ w.active_segment + 1
  pub fits : length (contents r.1.active_segment r.1.disk.files) + n ≤ w.max_bytes

pub roll_if_full_lem :
    (w : Wal) (q : List Bytes) (n : ℕ)
    → IsValid w q
    → w.active_segment < u64_max
    → segment_max_bytes ≤ w.max_bytes
    → n ≤ w.max_bytes
    → Prepared w q n (roll_if_full n w)
unfolding roll_if_full
roll_if_full_lem w q n v h big le =
    let len = length (contents w.active_segment w.disk.files) in
    elim (Bool-cases (ltb 0 len && ltb segment_max_bytes (len + n))) [
      | inl e ↦
          let r = roll_lem w q v h in
          rw (e, roll_if_full)
            (record {
              succeeds = r.succeeds;
              valid = r.valid;
              same_max = r.same_max;
              same_bytes = r.same_bytes;
              active = r.active;
              fits = rw r.empty (omega arith);
            })
      | inr e ↦
          rw (e, roll_if_full)
            (record {
              succeeds = refl;
              valid = v;
              same_max = refl;
              same_bytes = refl;
              active = omega arith;
              fits = ground arith;
            })
    ]
